-- ===== src/Engine/Tests.antt =====
-- A switch of the model, obeyed and refused.
use aiot_edge_gateway.Prelude.{
  ℕ, ◌≤◌, ◌≡◌, ◌⊎◌, inl, refl, true, false, Option, none, some, List, [], ◌∷◌, arith, length,
  if◌then◌else◌, ◌==◌,
}
use aiot_edge_gateway.Prelude.Text.{Text, codes}
use aiot_edge_gateway.Wire.Codec.{InternalMessage, encode_internal_msg, decode_internal_msg}
use aiot_edge_gateway.Engine.Inference.{
  InferenceStage, Load, TensorAttr, new_stage, read_model, query_attrs, prepare_input, destroy_rknn,
  query_model, init_rknn, check_model, roll_back, clear_model, switch_model,
}
use aiot_edge_gateway.Engine.Loads.{IsFresh}
use aiot_edge_gateway.Engine.Switch.{Owns, holds}
use aiot_edge_gateway.Engine.Pipeline.{
  Pipeline, serving, stage_loads, start_pipeline, stop_pipeline, switch_pipeline_model,
}
use aiot_edge_gateway.Engine.Scheduler.{
  Turn, Scheduler, received, take_turn, run, handle_datagram, handle_command, cmd_switch_model,
  cmd_start_analysis, cmd_stop_analysis, handle_switch, answer_switch, switch_target, start_path,
  Happening, turn_taken, stage_loaded,
}
use aiot_edge_gateway.Engine.Obey.{Consents, Refuses, take_turn-switch}
use aiot_edge_gateway.Engine.Contexts.{IsTidy, settled}
use aiot_edge_gateway.Engine.Tidy.{IsOrderly, over, turn_next, load_next, run-IsTidy}

abbrev attr : TensorAttr
attr = record {
  index = 0;
  dims = 1 ∷ 8 ∷ 6 ∷ 3 ∷ [];
  n_dims = 4;
  is_nchw = false;
  is_float32 = false;
}

abbrev load : Load
load = record {
  opened = λ path. some (1 ∷ 2 ∷ 3 ∷ 4 ∷ 5 ∷ []);
  reads = 3 ∷ 2 ∷ [];
  new_ctx = λ bytes. some 8;
  io_answer = some (record { n_input = 1; n_output = 1 });
  input_answer = λ i. some attr;
  output_answer = λ i. some attr;
}

-- The second output cannot be queried.
abbrev bad_load : Load
bad_load = record load {
  io_answer = some (record { n_input = 1; n_output = 2 });
  output_answer = λ i. if◌then◌else◌ (i == 0) (some attr) none;
}

abbrev stage : InferenceStage
stage = record (new_stage (codes "old.rknn") true) {
  ctx = 7;
  input_size = 640;
  input_buf = 9;
  contexts = 7 ∷ [];
}

abbrev no_files : Text → Option (List ℕ)
no_files path = none

stage-Owns : Owns stage
stage-Owns = holds (ground arith) refl

load-IsFresh : IsFresh load stage
load-IsFresh bytes = (ground arith, ground arith)

bad_load-IsFresh : IsFresh bad_load stage
bad_load-IsFresh bytes = (ground arith, ground arith)

switch_model-bad : switch_model no_files bad_load (codes "new.rknn") [] stage ≡ (false, stage)
unfolding switch_model check_model clear_model init_rknn read_model query_model query_attrs
    roll_back destroy_rknn
switch_model-bad = refl

switch_model-good :
    ((switch_model no_files load (codes "new.rknn") [] stage).0 ≡ true)
    × ((switch_model no_files load (codes "new.rknn") [] stage).1.input_size ≡ 8)
    × ((switch_model no_files load (codes "new.rknn") [] stage).1.input_buf ≡ 144)
unfolding switch_model check_model clear_model init_rknn read_model query_model query_attrs
    prepare_input
switch_model-good = (refl, refl, refl)

abbrev pipeline : Pipeline
pipeline = record {
  cfg_model_path = codes "old.rknn";
  has_fatal_cb = true;
  model_path = codes "old.rknn";
  pool = 1;
  queue_1 = 1 ∷ [];
  queue_2 = [];
  queue_3 = [];
  running = true;
  inference = some stage;
  thread = serving;
  frame_count = 0;
  current_fps = 0;
  latency_samples = [];
}

abbrev command : InternalMessage
command = record {
  source_type = 0;
  node_id = 0;
  tlv_type = cmd_switch_model;
  payload = codes "new.rknn|";
}

abbrev stop_command : InternalMessage
stop_command = record { source_type = 0; node_id = 0; tlv_type = cmd_stop_analysis; payload = [] }

abbrev start_command : InternalMessage
start_command = record { source_type = 0; node_id = 0; tlv_type = cmd_start_analysis; payload = [] }

abbrev turn_of : InternalMessage → Turn
turn_of msg = record {
  result = received (encode_internal_msg msg);
  files = no_files;
  load = load;
  reply = stop_command;
}

abbrev engine : Scheduler
engine = record { pipeline = pipeline; written = [] }

small : length (encode_internal_msg command) ≤ 4096
unfolding encode_internal_msg
small = omega arith

take_turn-switch_example :
    (let s' = (take_turn (turn_of command) engine).1 in
      (t : InferenceStage) × (s'.pipeline.inference ≡ some t)
      × (Consents (turn_of command) engine stage (codes "new.rknn") [] s' t
          ⊎ Refuses (turn_of command) engine stage s' t))
take_turn-switch_example =
    take_turn-switch (turn_of command) engine stage command (codes "new.rknn") [] refl
      (record {
        source_fits = omega arith;
        node_fits = omega arith;
        tlv_fits = omega arith;
        payload_fits = omega arith;
      })
      small refl refl (search arith) refl stage-Owns load-IsFresh

abbrev contexts_of : Option InferenceStage → List ℕ
contexts_of none = []
contexts_of (some s) = s.contexts

-- A switch that is obeyed before the stage's thread has loaded the first model: the context of the
-- switch is lost when the thread loads then.
abbrev early_switch : List Happening
early_switch =
    turn_taken (turn_of start_command)
    ∷ turn_taken (turn_of command)
    ∷ stage_loaded (record load { new_ctx = λ bytes. some 9 })
    ∷ []

early_switch-leaks : contexts_of (run early_switch engine).pipeline.inference ≡ 9 ∷ 8 ∷ []
unfolding run take_turn handle_datagram handle_command handle_switch answer_switch switch_target
    start_path start_pipeline stop_pipeline stage_loads switch_pipeline_model switch_model
    check_model clear_model init_rknn read_model query_model query_attrs prepare_input destroy_rknn
    encode_internal_msg decode_internal_msg
early_switch-leaks = refl

abbrev next_load : Load
next_load = record load { new_ctx = λ bytes. some 9 }

-- A start, the first load, a switch and a stop.
abbrev day : List Happening
day =
    turn_taken (turn_of start_command)
    ∷ stage_loaded load
    ∷ turn_taken (record (turn_of command) { load = next_load })
    ∷ turn_taken (turn_of stop_command)
    ∷ []

day-IsOrderly : IsOrderly day engine
unfolding take_turn handle_datagram handle_command handle_switch answer_switch switch_target
    start_path start_pipeline stop_pipeline stage_loads switch_pipeline_model switch_model
    check_model clear_model init_rknn read_model query_model query_attrs prepare_input destroy_rknn
    encode_internal_msg decode_internal_msg
day-IsOrderly =
    turn_next (λ bytes. (ground arith, ground arith)) (inl (λ h. ground arith))
      (load_next (λ bytes. (ground arith, ground arith))
        (turn_next (λ bytes. (ground arith, ground arith)) (inl (λ h. ground arith))
          (turn_next (λ bytes. (ground arith, ground arith)) (inl (λ h. ground arith)) over)))

run-IsTidy_example : let p = (run day engine).pipeline in IsTidy p.inference p.thread
run-IsTidy_example = run-IsTidy day engine day-IsOrderly (settled (λ h. ground arith) stage-Owns)
