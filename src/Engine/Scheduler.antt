-- ===== src/Engine/Scheduler.antt =====
-- The thread of `AnalysisScheduler` (gateway_engine/AnalysisScheduler.cpp), which obeys the core's
-- commands. What a turn meets is a parameter: what `read` returns, the files, the load of a model, and
-- what is in the reply's fields, which nothing sets.
use aiot_edge_gateway.Prelude.{
  ℕ, ◌+◌, Bool, true, false, Option, none, some, List, [], ◌∷◌, take, drop, ◌==◌, if◌then◌else◌,
}
use aiot_edge_gateway.Prelude.Text.{Text, codes, find, find_char}
use aiot_edge_gateway.Wire.Codec.{InternalMessage, encode_internal_msg, decode_internal_msg}
use aiot_edge_gateway.Engine.Inference.{Load}
use aiot_edge_gateway.Engine.Pipeline.{
  Pipeline, stage_loads, start_pipeline, stop_pipeline, switch_pipeline_model,
}

abbrev pub cmd_start_analysis : ℕ
cmd_start_analysis = 16

abbrev pub cmd_stop_analysis : ℕ
cmd_stop_analysis = 17

abbrev pub cmd_switch_model : ℕ
cmd_switch_model = 18

abbrev pub cmd_model_ack : ℕ
cmd_model_ack = 19

abbrev pub cmd_model_nack : ℕ
cmd_model_nack = 20

-- What `read` returns; a datagram comes whole, and the buffer cuts it.
pub data ReadResult : Type 0 where
  closed : ReadResult
  interrupted : ReadResult
  reset : ReadResult
  failed : ReadResult
  received : List ℕ → ReadResult

pub record Turn : Type 0 where
  pub result : ReadResult
  pub files : Text → Option (List ℕ)
  pub load : Load
  pub reply : InternalMessage

-- `written` are the replies, the last one first.
pub record Scheduler : Type 0 where
  pub pipeline : Pipeline
  pub written : List (List ℕ)

abbrev pub buffer_size : ℕ
buffer_size = 4096

unfoldable pub start_path : Text → Text
start_path payload = elim (find payload (codes "model=") 0) [
  | none ↦ []
  | some model_pos ↦
      let model_path = drop (model_pos + 6) payload in
      elim (find_char model_path b' ' 0) [ none ↦ model_path | some space ↦ take space model_path ]
]

-- The path, and the digest that is expected.
unfoldable pub switch_target : Text → Text × Text
switch_target payload = elim (find_char payload b'|' 0) [
  | none ↦ (payload, [])
  | some sep ↦ (take sep payload, drop (sep + 1) payload)
]

-- The switch to a path and a digest, and the answer.
unfoldable pub answer_switch : Turn → Text × Text → Scheduler → Scheduler
answer_switch turn target s =
    let (ok, p) = switch_pipeline_model turn.files turn.load target.0 target.1 s.pipeline in
    let reply = record turn.reply {
      tlv_type = if ok then cmd_model_ack else cmd_model_nack;
      payload = [];
    } in
    record { pipeline = p; written = encode_internal_msg reply ∷ s.written }

unfoldable pub handle_switch : Turn → Text → Scheduler → Scheduler
handle_switch turn payload s = answer_switch turn (switch_target payload) s

unfoldable pub handle_command : Turn → InternalMessage → Scheduler → Scheduler
handle_command turn msg s =
    if msg.tlv_type == cmd_start_analysis
    then record s { pipeline = start_pipeline turn.load (start_path msg.payload) s.pipeline }
    else if msg.tlv_type == cmd_stop_analysis
    then record s { pipeline = stop_pipeline turn.load s.pipeline }
    else if msg.tlv_type == cmd_switch_model
    then handle_switch turn msg.payload s
    else s

unfoldable pub handle_datagram : Turn → List ℕ → Scheduler → Scheduler
handle_datagram turn bytes s =
    let result = decode_internal_msg (take buffer_size bytes) in
    if result.ok then handle_command turn result.msg s else s

-- Whether the loop goes on, and what the turn makes of the engine.
unfoldable pub take_turn : Turn → Scheduler → Bool × Scheduler
take_turn turn s = elim turn.result [
  | closed ↦ (false, s)
  | interrupted ↦ (true, s)
  | reset ↦ (false, s)
  | failed ↦ (true, s)
  | received bytes ↦ (true, handle_datagram turn bytes s)
]

-- What happens to the engine: a turn of this thread, or the first load in the thread of the stage.
pub data Happening : Type 0 where
  turn_taken : Turn → Happening
  stage_loaded : Load → Happening

-- The loop, over the turns that it takes until the thread is stopped.
unfoldable pub run : List Happening → Scheduler → Scheduler
run [] s = s
run (turn_taken turn ∷ rest) s =
    let (goes_on, s') = take_turn turn s in let after = run rest s' in if goes_on then after else s'
run (stage_loaded load ∷ rest) s = run rest (record s { pipeline = stage_loads load s.pipeline })
