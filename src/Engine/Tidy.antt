-- ===== src/Engine/Tidy.antt =====
-- The contexts that the engine holds, over its turns and the loads in the thread of its stage
-- (gateway_engine/AnalysisScheduler.cpp, pipeline/Pipeline.cpp, pipeline/stages/InferenceStage.cpp).
use aiot_edge_gateway.Prelude.{
  ℕ, ◌≡◌, ◌≢◌, ◌⊎◌, inl, inr, refl, List, [], ◌∷◌, take, arith, ◌==◌, Bool-cases,
}
use aiot_edge_gateway.Wire.Codec.{InternalMessage, decode_internal_msg}
use aiot_edge_gateway.Engine.Inference.{Load}
use aiot_edge_gateway.Engine.Loads.{IsFresh}
use aiot_edge_gateway.Engine.Pipeline.{starting, stage_loads}
use aiot_edge_gateway.Engine.Scheduler.{
  Turn, Scheduler, ReadResult, received, take_turn, Happening, turn_taken, stage_loaded, run,
  handle_datagram, handle_command, handle_switch, answer_switch, switch_target, start_path,
  cmd_start_analysis, cmd_stop_analysis, cmd_switch_model, buffer_size,
}
use aiot_edge_gateway.Engine.Contexts.{
  IsTidy, stage_or_new, stage_loads-IsTidy, stop-IsTidy, start-IsTidy, switch-IsTidy,
}

-- The type of the message that a turn reads.
abbrev pub command_of : ReadResult → ℕ
command_of (received bytes) = (decode_internal_msg (take buffer_size bytes)).msg.tlv_type
command_of _ = 0

-- A switch comes only when the stage's thread has loaded its first model.
abbrev pub IsInTime : Turn → Scheduler → Type 0
IsInTime turn s = (s.pipeline.thread ≢ starting) ⊎ (command_of turn.result ≢ cmd_switch_model)

handle_command-IsTidy :
    (turn : Turn) (msg : InternalMessage) (s : Scheduler)
    → IsFresh turn.load (stage_or_new s.pipeline.inference)
    → (s.pipeline.thread ≢ starting) ⊎ (msg.tlv_type ≢ cmd_switch_model)
    → IsTidy s.pipeline.inference s.pipeline.thread
    → (let p = (handle_command turn msg s).pipeline in IsTidy p.inference p.thread)
unfolding handle_command handle_switch answer_switch
handle_command-IsTidy turn msg s f d i = elim (Bool-cases (msg.tlv_type == cmd_start_analysis)) [
  | inl e ↦ rw (handle_command, e) (start-IsTidy turn.load (start_path msg.payload) s.pipeline f i)
  | inr e ↦ elim (Bool-cases (msg.tlv_type == cmd_stop_analysis)) [
    | inl e' ↦ rw (handle_command, e, e') (stop-IsTidy turn.load s.pipeline f i)
    | inr e' ↦ elim (Bool-cases (msg.tlv_type == cmd_switch_model)) [
      | inl h ↦
          rw (handle_command, e, e', h)
            (switch-IsTidy turn.files turn.load (switch_target msg.payload).0
              (switch_target msg.payload).1 s.pipeline f
              (elim d [ inl n ↦ n | inr n ↦ ground arith ]) i)
      | inr h ↦ rw (handle_command, e, e', h) i
    ]
  ]
]

take_turn-IsTidy :
    (turn : Turn) (s : Scheduler)
    → IsFresh turn.load (stage_or_new s.pipeline.inference)
    → IsInTime turn s
    → IsTidy s.pipeline.inference s.pipeline.thread
    → (let p = (take_turn turn s).1.pipeline in IsTidy p.inference p.thread)
unfolding take_turn handle_datagram
take_turn-IsTidy turn s f d i = go turn.result refl d
  where
    go :
        (r : ReadResult)
        → turn.result ≡ r
        → (s.pipeline.thread ≢ starting) ⊎ (command_of r ≢ cmd_switch_model)
        → (let p = (take_turn turn s).1.pipeline in IsTidy p.inference p.thread)
    go ReadResult.closed e d = rw (take_turn, e) i
    go ReadResult.interrupted e d = rw (take_turn, e) i
    go ReadResult.reset e d = rw (take_turn, e) i
    go ReadResult.failed e d = rw (take_turn, e) i
    go (received bytes) e d = elim (Bool-cases (decode_internal_msg (take buffer_size bytes)).ok) [
      | inl k ↦
          rw (take_turn, e, handle_datagram, k)
            (handle_command-IsTidy turn (decode_internal_msg (take buffer_size bytes)).msg s f d i)
      | inr k ↦ rw (take_turn, e, handle_datagram, k) i
    ]

-- Every load on the way gets a context that does not live, and no switch comes too early.
pub data IsOrderly : List Happening → Scheduler → Type 0 where
  over : {s : Scheduler} → IsOrderly [] s
  turn_next :
      {turn : Turn} {rest : List Happening} {s : Scheduler}
      → IsFresh turn.load (stage_or_new s.pipeline.inference)
      → IsInTime turn s
      → IsOrderly rest (take_turn turn s).1
      → IsOrderly (turn_taken turn ∷ rest) s
  load_next :
      {load : Load} {rest : List Happening} {s : Scheduler}
      → IsFresh load (stage_or_new s.pipeline.inference)
      → IsOrderly rest (record s { pipeline = stage_loads load s.pipeline })
      → IsOrderly (stage_loaded load ∷ rest) s

-- Whatever the core sends and whatever the loads meet, after any sequence of turns and of loads in the
-- thread of the stage, in which no switch comes between a start and the first load: the engine holds
-- exactly the context of its model, or none, and none while the first load is still to come. No start,
-- stop, switch or failed load leaks one.
pub run-IsTidy :
    (happenings : List Happening) (s : Scheduler)
    → IsOrderly happenings s
    → IsTidy s.pipeline.inference s.pipeline.thread
    → (let p = (run happenings s).pipeline in IsTidy p.inference p.thread)
unfolding run
run-IsTidy [] s o i = i
run-IsTidy (turn_taken turn ∷ rest) s (turn_next f d o) i = ground (
  arith,
  take_turn-IsTidy turn s f d i,
  run-IsTidy rest (take_turn turn s).1 o (take_turn-IsTidy turn s f d i),
)
run-IsTidy (stage_loaded load ∷ rest) s (load_next f o) i =
    run-IsTidy rest _ o (stage_loads-IsTidy load s.pipeline f i)
