-- ===== src/Engine/Loads.antt =====
-- What a load of a model leaves (gateway_engine/pipeline/stages/InferenceStage.cpp, lines 27-121).
use aiot_edge_gateway.Prelude.{
  ℕ, ◌≡◌, ◌≢◌, inl, inr, refl, sym, ap, subst, ◌∙◌, Bool, true, false, Option, none, some, List,
  ◌∷◌, length, ◌==◌, arith, Bool-cases, Option-cases,
}
use aiot_edge_gateway.Prelude.Text.{Text}
use aiot_edge_gateway.Engine.Inference.{
  InferenceStage, Load, IoNum, read_model, query_attrs, destroy_rknn, prepare_input, query_model,
  init_rknn,
}

-- The runtime's contexts are numbers other than 0, and never that of a context that lives.
abbrev pub IsNew : Option ℕ → InferenceStage → Type 0
IsNew none s = Unit
IsNew (some c) s = (c ≢ 0) × (c ≢ s.ctx)

abbrev pub IsFresh : Load → InferenceStage → Type 0
IsFresh load s = (bytes : List ℕ) → IsNew (load.new_ctx bytes) s

-- What a load leaves alone.
abbrev pub Keeps : InferenceStage → InferenceStage → Type 0
Keeps s t =
    (t.model_path ≡ s.model_path) × (t.has_fatal_cb ≡ s.has_fatal_cb) × (t.fatals ≡ s.fatals)

-- The stage runs what the runtime makes of the bytes that are at the path.
abbrev pub HasModel : Load → Text → InferenceStage → Type 0
HasModel load path t =
    (bytes : List ℕ) × (load.opened path ≡ some bytes)
    × (load.new_ctx bytes ≡ some t.ctx)
    × (load.io_answer ≡ some t.io_num)

-- A failed load holds no context; a successful one holds the new one.
abbrev pub Loaded : Load → Text → InferenceStage → Bool → InferenceStage → Type 0
Loaded load path s true t = HasModel load path t × (t.contexts ≡ t.ctx ∷ s.contexts) × Keeps s t
Loaded load path s false t = (t.ctx ≡ 0) × (t.contexts ≡ s.contexts) × Keeps s t

-- The same from the queries on.
abbrev Queried : Option IoNum → ℕ → InferenceStage → Bool → InferenceStage → Type 0
Queried answer c s true t =
    (t.ctx ≡ c) × (answer ≡ some t.io_num) × (t.contexts ≡ t.ctx ∷ s.contexts) × Keeps s t
Queried answer c s false t = (t.ctx ≡ 0) × (t.contexts ≡ s.contexts) × Keeps s t

destroy_rknn-newest :
    (s : InferenceStage) (c : ℕ) (cs : List ℕ)
    → s.ctx ≡ c
    → c ≢ 0
    → s.contexts ≡ c ∷ cs
    → (let t = destroy_rknn s in (t.ctx ≡ 0) × (t.contexts ≡ cs) × Keeps s t)
unfolding destroy_rknn
destroy_rknn-newest s c cs e n h = ground arith

prepare_input_lem :
    (s : InferenceStage)
    → (let t = prepare_input s in
        (t.ctx ≡ s.ctx) × (t.io_num ≡ s.io_num) × (t.contexts ≡ s.contexts) × Keeps s t)
unfolding prepare_input
prepare_input_lem s = ground arith

query_model-Queried :
    (load : Load) (base : InferenceStage) (c : ℕ)
    → c ≢ 0
    → (let r = query_model load (record base { ctx = c; contexts = c ∷ base.contexts }) in
        Queried load.io_answer c base r.0 r.1)
unfolding query_model
query_model-Queried load base c n = go load.io_answer refl
  where
    s : InferenceStage
    s = record base { ctx = c; contexts = c ∷ base.contexts }

    fail :
        (u : InferenceStage)
        → u.ctx ≡ c
        → u.contexts ≡ c ∷ base.contexts
        → (let t = destroy_rknn u in (t.ctx ≡ 0) × (t.contexts ≡ base.contexts) × Keeps u t)
    fail u e0 e1 = destroy_rknn-newest u c base.contexts e0 n e1

    done :
        (u : InferenceStage)
        → u.ctx ≡ c
        → u.contexts ≡ c ∷ base.contexts
        → (answer : Option IoNum) → answer ≡ some u.io_num
        → (let t = prepare_input u in
            (t.ctx ≡ c)
            × (answer ≡ some t.io_num)
            × (t.contexts ≡ t.ctx ∷ base.contexts)
            × Keeps u t)
    done u e0 e1 answer i =
        let (k0, k1, k2, k3) = prepare_input_lem u in
        (
          k0 ∙ e0,
          i ∙ ap some (sym k1),
          k2 ∙ e1 ∙ ap (λ c. List.◌∷◌ c base.contexts) (sym (k0 ∙ e0)),
          k3,
        )

    go :
        (o : Option IoNum)
        → load.io_answer ≡ o
        → (let r = query_model load s in Queried load.io_answer c base r.0 r.1)
    go none o = rw (query_model, o) (fail s refl refl)
    go (some io) o = elim (Bool-cases (query_attrs load.input_answer io.n_input 0).0) [
      | inl i ↦ elim (Bool-cases (query_attrs load.output_answer io.n_output 0).0) [
        | inl t ↦ rw (query_model, o, i, t) (done _ refl refl (some io) refl)
        | inr t ↦ rw (query_model, o, i, t) (fail _ refl refl)
      ]
      | inr i ↦ rw (query_model, o, i) (fail _ refl refl)
    ]

Queried-Loaded :
    (load : Load) (path : Text) (bytes : List ℕ) (c : ℕ) (s : InferenceStage) (b : Bool)
    (t : InferenceStage)
    → load.opened path ≡ some bytes
    → load.new_ctx bytes ≡ some c
    → Queried load.io_answer c s b t
    → Loaded load path s b t
Queried-Loaded load path bytes c s true t o h (q0, q1, q2, q3) =
    ((bytes, o, h ∙ ap some (sym q0), q1), q2, q3)
Queried-Loaded load path bytes c s false t o h q = q

IsNew-some :
    (load : Load) (s : InferenceStage) (bytes : List ℕ) (c : ℕ)
    → load.new_ctx bytes ≡ some c
    → IsFresh load s
    → (c ≢ 0) × (c ≢ s.ctx)
IsNew-some load s bytes c h f = subst (λ o. IsNew o s) h (f bytes)

pub init_rknn-Loaded :
    (load : Load) (path : Text) (s old : InferenceStage)
    → s.ctx ≡ 0
    → IsFresh load old
    → (let r = init_rknn load path s in Loaded load path s r.0 r.1)
unfolding init_rknn
init_rknn-Loaded load path s old z f = elim (Option-cases (load.opened path)) [
  | inl e ↦ rw (init_rknn, e) (z, refl, (refl, refl, refl))
  | inr (bytes, e) ↦ elim (Bool-cases (read_model (length bytes) 0 load.reads == length bytes)) [
    | inl b ↦ elim (Option-cases (load.new_ctx bytes)) [
      | inl h ↦ rw (init_rknn, e, b, h) (refl, refl, (refl, refl, refl))
      | inr (c, h) ↦
          let (n, m) = IsNew-some load old bytes c h f in
          rw (init_rknn, e, b, h)
            (Queried-Loaded load path bytes c s _ _ e h (query_model-Queried load s c n))
    ]
    | inr b ↦ rw (init_rknn, e, b) (z, refl, (refl, refl, refl))
  ]
]

pub model-new :
    (load : Load) (path : Text) (s t : InferenceStage)
    → IsFresh load s
    → HasModel load path t
    → (t.ctx ≢ 0) × (t.ctx ≢ s.ctx)
model-new load path s t f (bytes, o, h, i) = IsNew-some load s bytes t.ctx h f
