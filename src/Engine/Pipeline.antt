-- ===== src/Engine/Pipeline.antt =====
-- The class `Pipeline` (gateway_engine/pipeline/Pipeline.{h,cpp}). A pool of frames is the number of
-- pools made so far, and a frame in a queue is the number of its pool. The thread of the inference
-- stage loads the model at some time after its start, and a stop waits for its end. A load and a switch
-- are taken to follow one another, although the first load takes no lock.
use aiot_edge_gateway.Prelude.{
  ℕ, ◌+◌, Bool, true, false, Option, none, some, List, [], ◌∷◌, ◌++◌, ltb, length, drop,
  if◌then◌else◌,
}
use aiot_edge_gateway.Prelude.Text.{Text, is_empty}
use aiot_edge_gateway.Engine.Inference.{
  InferenceStage, Load, new_stage, init_rknn, destroy_rknn, switch_model,
}

-- Where the thread of the inference stage is: not started or joined, before its first load, in the loop
-- over the frames, or in the loop of sleeps after a load that failed.
pub data StageThread : Type 0 where
  off : StageThread
  starting : StageThread
  serving : StageThread
  sleeping : StageThread

pub record Pipeline : Type 0 where
  pub cfg_model_path : Text
  pub has_fatal_cb : Bool
  pub model_path : Text
  pub pool : ℕ
  pub queue_1 : List ℕ
  pub queue_2 : List ℕ
  pub queue_3 : List ℕ
  pub running : Bool
  pub inference : Option InferenceStage
  pub thread : StageThread
  pub frame_count : ℕ
  pub current_fps : ℕ
  -- The oldest first.
  pub latency_samples : List ℕ

-- `while (queue.pop(f)) {}`
unfoldable pub drain_queue : List ℕ → List ℕ
drain_queue [] = []
drain_queue (f ∷ queue) = drain_queue queue

-- The stage's thread loads its model for the first time, if it has not yet.
unfoldable pub stage_loads : Load → Pipeline → Pipeline
stage_loads load p = elim p.thread [
  | starting ↦ elim p.inference [
    | none ↦ p
    | some s ↦
        let (ok, s') = init_rknn load s.model_path s in
        record p { inference = some s'; thread = if ok then serving else sleeping }
  ]
  | _ ↦ p
]

-- Only the end of the loop over the frames gives the context up.
abbrev pub stop_stage : StageThread → Option InferenceStage → Option InferenceStage
stop_stage thread none = none
stop_stage serving (some s) = some (destroy_rknn s)
stop_stage _ (some s) = some s

-- A thread that is told to stop before its first load still loads.
unfoldable pub stop_pipeline : Load → Pipeline → Pipeline
stop_pipeline load p =
    let p' = stage_loads load p in
    record p' {
      running = false;
      thread = off;
      inference = stop_stage p'.thread p'.inference;
      queue_1 = drain_queue p'.queue_1;
      queue_2 = drain_queue p'.queue_2;
      queue_3 = drain_queue p'.queue_3;
    }

-- A new stage; its predecessor goes, with its context. What the runtime holds and what the callback
-- was told stay.
abbrev pub renew_stage : Option InferenceStage → Text → Bool → InferenceStage
renew_stage none path has_fatal_cb = new_stage path has_fatal_cb
renew_stage (some s) path has_fatal_cb =
    let gone = destroy_rknn s in
    record (new_stage path has_fatal_cb) { fatals = gone.fatals; contexts = gone.contexts }

unfoldable pub start_pipeline : Load → Text → Pipeline → Pipeline
start_pipeline load path p =
    let stopped = stop_pipeline load p in
    let model_path = if is_empty path then stopped.cfg_model_path else path in
    let stage = renew_stage stopped.inference model_path stopped.has_fatal_cb in
    record stopped {
      model_path = model_path;
      queue_1 = drain_queue stopped.queue_1;
      queue_2 = drain_queue stopped.queue_2;
      queue_3 = drain_queue stopped.queue_3;
      pool = stopped.pool + 1;
      running = true;
      inference = some stage;
      thread = starting;
    }

unfoldable pub switch_pipeline_model :
    (Text → Option (List ℕ)) → Load → Text → Text → Pipeline → Bool × Pipeline
switch_pipeline_model files load path expected_sha256 p = elim p.inference [
  | none ↦ (false, p)
  | some s ↦
      let (ok, s') = switch_model files load path expected_sha256 s in
      (ok, record p { inference = some s' })
]

abbrev pub max_latency_samples : ℕ
max_latency_samples = 30

unfoldable pub on_frame_done : ℕ → Pipeline → Pipeline
on_frame_done now p =
    let samples = p.latency_samples ++ (now ∷ []) in
    record p {
      frame_count = p.frame_count + 1;
      latency_samples =
          if ltb max_latency_samples (length samples) then drop 1 samples else samples;
    }

unfoldable pub tick_fps : Pipeline → Pipeline
tick_fps p = record p { current_fps = p.frame_count; frame_count = 0 }
