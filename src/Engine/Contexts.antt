-- ===== src/Engine/Contexts.antt =====
-- What the calls of the pipeline and the first load make of the contexts that the engine holds
-- (gateway_engine/pipeline/Pipeline.cpp, pipeline/stages/InferenceStage.cpp).
use aiot_edge_gateway.Prelude.{
  ℕ, ◌≡◌, ◌≢◌, refl, sym, ap, subst, ◌∙◌, Bool, true, false, Option, none, some, List, [], arith,
}
use aiot_edge_gateway.Prelude.Text.{Text}
use aiot_edge_gateway.Engine.Inference.{InferenceStage, Load, init_rknn, destroy_rknn, new_stage}
use aiot_edge_gateway.Engine.Loads.{IsFresh, Loaded, model-new, init_rknn-Loaded}
use aiot_edge_gateway.Engine.Switch.{Owns, idle, holds, switch_model-Owns}
use aiot_edge_gateway.Engine.Pipeline.{
  Pipeline, StageThread, off, starting, serving, sleeping, stage_loads, start_pipeline,
  stop_pipeline, switch_pipeline_model, renew_stage, stop_stage,
}

-- The stage, where there is one, holds exactly the context of its model.
data IsOwned : Option InferenceStage → Type 0 where
  no_stage : IsOwned none
  owned : {s : InferenceStage} → Owns s → IsOwned (some s)

-- The same for the stage and its thread: none while the thread has not loaded the first model.
pub data IsTidy : Option InferenceStage → StageThread → Type 0 where
  absent : {thread : StageThread} → IsTidy none thread
  waiting : {s : InferenceStage} → s.ctx ≡ 0 → s.contexts ≡ [] → IsTidy (some s) starting
  settled :
      {s : InferenceStage} {thread : StageThread}
      → thread ≢ starting
      → Owns s
      → IsTidy (some s) thread

abbrev pub stage_or_new : Option InferenceStage → InferenceStage
stage_or_new none = new_stage [] false
stage_or_new (some s) = s

off-ne : off ≢ starting
off-ne h = ground arith

settle :
    (o : Option InferenceStage) (thread : StageThread)
    → thread ≢ starting
    → IsOwned o
    → IsTidy o thread
settle none thread n no_stage = absent
settle (some s) thread n (owned o) = settled n o

settled-IsOwned :
    (o : Option InferenceStage) (thread : StageThread)
    → thread ≢ starting
    → IsTidy o thread
    → IsOwned o
settled-IsOwned none thread n i = no_stage
settled-IsOwned (some s) starting n i = absurd (n refl)
settled-IsOwned (some s) off n (settled m o) = owned o
settled-IsOwned (some s) serving n (settled m o) = owned o
settled-IsOwned (some s) sleeping n (settled m o) = owned o

init_rknn-Owns :
    (load : Load) (path : Text) (s old : InferenceStage)
    → s.ctx ≡ 0
    → s.contexts ≡ []
    → IsFresh load old
    → Owns (init_rknn load path s).1
init_rknn-Owns load path s old z c f =
    go (init_rknn load path s).0 (init_rknn load path s).1 (init_rknn-Loaded load path s old z f)
  where
    go : (b : Bool) (t : InferenceStage) → Loaded load path s b t → Owns t
    go true t (m, cs, k) = holds (model-new load path old t f m).0 (cs ∙ ap (List.◌∷◌ t.ctx) c)
    go false t (e, cs, k) = idle e (cs ∙ c)

stage_loads-IsOwned :
    (load : Load) (p : Pipeline)
    → IsFresh load (stage_or_new p.inference)
    → IsTidy p.inference p.thread
    → IsOwned (stage_loads load p).inference
unfolding stage_loads
stage_loads-IsOwned load p f i = go p.inference refl p.thread refl i
  where
    left :
        (o : Option InferenceStage)
        → p.inference ≡ o
        → (thread : StageThread) → thread ≢ starting
        → IsTidy o thread
        → IsOwned p.inference
    left o e thread n i = subst IsOwned (sym e) (settled-IsOwned o thread n i)

    go :
        (o : Option InferenceStage)
        → p.inference ≡ o
        → (thread : StageThread) → p.thread ≡ thread
        → IsTidy o thread
        → IsOwned (stage_loads load p).inference
    go o e off t i = rw (stage_loads, t) (left o e off off-ne i)
    go o e serving t i = rw (stage_loads, t) (left o e serving (λ h. ground arith) i)
    go o e sleeping t i = rw (stage_loads, t) (left o e sleeping (λ h. ground arith) i)
    go none e starting t i = rw (stage_loads, t, e) (subst IsOwned (sym e) no_stage)
    go (some s) e starting t (settled n o) = absurd (n refl)
    go (some s) e starting t (waiting z c) =
        rw (stage_loads, t, e)
          (owned (
            init_rknn-Owns load s.model_path s s z c
              (subst (λ o. IsFresh load (stage_or_new o)) e f)))

pub stage_loads-IsTidy :
    (load : Load) (p : Pipeline)
    → IsFresh load (stage_or_new p.inference)
    → IsTidy p.inference p.thread
    → (let p' = stage_loads load p in IsTidy p'.inference p'.thread)
unfolding stage_loads
stage_loads-IsTidy load p f i = go p.inference refl p.thread refl i
  where
    go :
        (o : Option InferenceStage)
        → p.inference ≡ o
        → (thread : StageThread) → p.thread ≡ thread
        → IsTidy o thread
        → (let p' = stage_loads load p in IsTidy p'.inference p'.thread)
    go o e off t j = rw (stage_loads, t) i
    go o e serving t j = rw (stage_loads, t) i
    go o e sleeping t j = rw (stage_loads, t) i
    go none e starting t j = rw (stage_loads, t, e) i
    go (some s) e starting t (settled n o) = absurd (n refl)
    go (some s) e starting t (waiting z c) =
        let o =
          init_rknn-Owns load s.model_path s s z c
            (subst (λ o. IsFresh load (stage_or_new o)) e f) in
        rw (stage_loads, t, e) (settled (λ h. ground arith) o)

destroy_rknn-idle :
    (s : InferenceStage) → Owns s → ((destroy_rknn s).ctx ≡ 0) × ((destroy_rknn s).contexts ≡ [])
unfolding destroy_rknn
destroy_rknn-idle s o = elim o [ idle z c ↦ ground arith | holds z c ↦ ground arith ]

stop_stage-IsOwned :
    (thread : StageThread) (o : Option InferenceStage) → IsOwned o → IsOwned (stop_stage thread o)
stop_stage-IsOwned thread none i = no_stage
stop_stage-IsOwned serving (some s) (owned o) =
    let (z, c) = destroy_rknn-idle s o in owned (idle z c)
stop_stage-IsOwned off (some s) i = i
stop_stage-IsOwned starting (some s) i = i
stop_stage-IsOwned sleeping (some s) i = i

stop-IsOwned :
    (load : Load) (p : Pipeline)
    → IsFresh load (stage_or_new p.inference)
    → IsTidy p.inference p.thread
    → IsOwned (stop_pipeline load p).inference
unfolding stop_pipeline
stop-IsOwned load p f i = stop_stage-IsOwned _ _ (stage_loads-IsOwned load p f i)

pub stop-IsTidy :
    (load : Load) (p : Pipeline)
    → IsFresh load (stage_or_new p.inference)
    → IsTidy p.inference p.thread
    → (let p' = stop_pipeline load p in IsTidy p'.inference p'.thread)
unfolding stop_pipeline
stop-IsTidy load p f i = settle _ off off-ne (stop-IsOwned load p f i)

renew_stage-idle :
    (o : Option InferenceStage) (path : Text) (has_fatal_cb : Bool)
    → IsOwned o
    → (let t = renew_stage o path has_fatal_cb in (t.ctx ≡ 0) × (t.contexts ≡ []))
renew_stage-idle none path has_fatal_cb i = (refl, refl)
renew_stage-idle (some s) path has_fatal_cb (owned o) = (refl, (destroy_rknn-idle s o).1)

pub start-IsTidy :
    (load : Load) (path : Text) (p : Pipeline)
    → IsFresh load (stage_or_new p.inference)
    → IsTidy p.inference p.thread
    → (let p' = start_pipeline load path p in IsTidy p'.inference p'.thread)
unfolding start_pipeline
start-IsTidy load path p f i =
    let (z, c) = renew_stage-idle _ _ _ (stop-IsOwned load p f i) in waiting z c

pub switch-IsTidy :
    (files : Text → Option (List ℕ)) (load : Load) (path hash : Text) (p : Pipeline)
    → IsFresh load (stage_or_new p.inference)
    → p.thread ≢ starting
    → IsTidy p.inference p.thread
    → (let p' = (switch_pipeline_model files load path hash p).1 in IsTidy p'.inference p'.thread)
unfolding switch_pipeline_model
switch-IsTidy files load path hash p f n i =
    go p.inference refl (settled-IsOwned p.inference p.thread n i)
  where
    go :
        (o : Option InferenceStage)
        → p.inference ≡ o
        → IsOwned o
        → (let p' = (switch_pipeline_model files load path hash p).1 in
            IsTidy p'.inference p'.thread)
    go none e k = rw (switch_pipeline_model, e) i
    go (some s) e (owned o) =
        rw (switch_pipeline_model, e)
          (settled n (
            switch_model-Owns files load path hash s
              (subst (λ o. IsFresh load (stage_or_new o)) e f) o))
