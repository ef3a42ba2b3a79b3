-- ===== src/Engine/Switch.antt =====
-- What a hot switch of the model leaves (gateway_engine/pipeline/stages/InferenceStage.cpp, lines
-- 123-196).
use aiot_edge_gateway.Prelude.{
  ℕ, ◌≡◌, ◌≢◌, ◌⊎◌, inl, inr, refl, sym, ap, subst, ◌∙◌, Bool, true, false, Option, List, [], ◌∷◌,
  ◌==◌, arith, Bool-cases, if◌then◌else◌,
}
use aiot_edge_gateway.Prelude.Text.{Text, eqb-eq}
use aiot_edge_gateway.Hash.Digest.{sha256_file}
use aiot_edge_gateway.Engine.Inference.{
  InferenceStage, Load, remove, destroy_rknn, init_rknn, check_model, roll_back, rollback_fatal,
  clear_model, switch_model,
}
use aiot_edge_gateway.Engine.Loads.{IsFresh, Keeps, HasModel, Loaded, init_rknn-Loaded, model-new}

check_model-digest :
    (files : Text → Option (List ℕ)) (path hash : Text)
    → check_model files path hash ≡ true
    → (hash ≡ []) ⊎ (sha256_file (files path) ≡ hash)
unfolding check_model
check_model-digest files path hash h = ground (arith, eqb-eq (sha256_file (files path)) hash)

roll_back_lem :
    (s t : InferenceStage)
    → t.ctx ≡ 0
    → t.contexts ≡ s.contexts
    → Keeps s t
    → (roll_back s t ≡ s)
      ⊎ ((s.ctx ≡ 0) × (roll_back s t ≡ record s { fatals = rollback_fatal ∷ s.fatals }))
unfolding roll_back destroy_rknn
roll_back_lem s t z e k = ground arith

-- A stage holds exactly the context of its model, if it has one.
pub data Owns (s : InferenceStage) : Type 0 where
  idle : s.ctx ≡ 0 → s.contexts ≡ [] → Owns s
  holds : s.ctx ≢ 0 → s.contexts ≡ s.ctx ∷ [] → Owns s

refuted : {b : Bool} → b ≡ true → b ≡ false → ⊥
refuted h h' = ground arith

-- The old model's context is released.
abbrev pub retire : InferenceStage → InferenceStage → InferenceStage
retire s t = if s.ctx == 0 then t else record t { contexts = remove s.ctx t.contexts }

retire_lem :
    (s t : InferenceStage)
    → Owns s
    → t.ctx ≢ s.ctx
    → t.contexts ≡ t.ctx ∷ s.contexts
    → ((retire s t).ctx ≡ t.ctx)
      × ((retire s t).contexts ≡ t.ctx ∷ [])
      × ((retire s t).fatals ≡ t.fatals)
retire_lem s t o n e = elim o [ idle z c ↦ ground arith | holds z c ↦ ground arith ]

retired-HasModel :
    (load : Load) (path : Text) (s t : InferenceStage)
    → HasModel load path t
    → HasModel load path (record (retire s t) { model_path = path })
retired-HasModel load path s t (bytes, o, h, i) = elim (Bool-cases (s.ctx == 0)) [
  | inl e ↦ (bytes, o, rw e h, rw e i)
  | inr e ↦ (bytes, o, rw e h, rw e i)
]

module _ (files : Text → Option (List ℕ)) (load : Load) (path hash : Text)
    (s : InferenceStage) where
  cleared-Loaded :
      IsFresh load s
      → (let r = init_rknn load path (clear_model s) in Loaded load path (clear_model s) r.0 r.1)
  unfolding clear_model
  cleared-Loaded f = init_rknn-Loaded load path (clear_model s) s refl f

  switched :
      check_model files path hash ≡ true
      → (init_rknn load path (clear_model s)).0 ≡ true
      → (switch_model files load path hash s).0 ≡ true
  unfolding switch_model
  switched c ok = rw (switch_model, c, ok) refl

  unchecked : check_model files path hash ≡ false → (switch_model files load path hash s).0 ≡ false
  unfolding switch_model
  unchecked c = rw (switch_model, c) refl

  not_loaded :
      (init_rknn load path (clear_model s)).0 ≡ false
      → (switch_model files load path hash s).0 ≡ false
  unfolding switch_model
  not_loaded ok = ground arith

  -- A switch that fails leaves the stage as it was, the contexts of the runtime included; only where it
  -- had no model before, the callback is told besides.
  pub switch_model-restores :
      IsFresh load s
      → (switch_model files load path hash s).0 ≡ false
      → (let t = (switch_model files load path hash s).1 in
          (t ≡ s) ⊎ ((s.ctx ≡ 0) × (t ≡ record s { fatals = rollback_fatal ∷ s.fatals })))
  unfolding switch_model clear_model
  switch_model-restores f h = elim (Bool-cases (check_model files path hash)) [
    | inr c ↦ rw (switch_model, c) (inl refl)
    | inl c ↦ elim (Bool-cases (init_rknn load path (clear_model s)).0) [
      | inl ok ↦ absurd (refuted (switched c ok) h)
      | inr ok ↦
          let (z, e, k) =
            subst (λ b. Loaded load path (clear_model s) b (init_rknn load path (clear_model s)).1)
              ok (cleared-Loaded f) in
          rw (switch_model, c, ok) (roll_back_lem s _ z e k)
    ]
  ]

  -- A switch that succeeds had the digest that was asked for, if one was; the stage runs the model
  -- that was made of the bytes at the path, on a new context, and holds no other one.
  pub switch_model-switches :
      IsFresh load s
      → Owns s
      → (switch_model files load path hash s).0 ≡ true
      → (let t = (switch_model files load path hash s).1 in
          ((hash ≡ []) ⊎ (sha256_file (files path) ≡ hash))
          × (t.model_path ≡ path)
          × HasModel load path t
          × (t.ctx ≢ s.ctx)
          × (t.contexts ≡ t.ctx ∷ [])
          × (t.fatals ≡ s.fatals))
  unfolding switch_model clear_model
  switch_model-switches f o h = elim (Bool-cases (check_model files path hash)) [
    | inr c ↦ absurd (refuted h (unchecked c))
    | inl c ↦ elim (Bool-cases (init_rknn load path (clear_model s)).0) [
      | inr ok ↦ absurd (refuted h (not_loaded ok))
      | inl ok ↦
          let t = (init_rknn load path (clear_model s)).1 in
          let (e, cs, k) =
            subst (λ b. Loaded load path (clear_model s) b t) ok (cleared-Loaded f) in
          let (r0, r1, r2) = retire_lem s t o (model-new load path s t f e).1 cs in
          rw (switch_model, c, ok)
            (
              check_model-digest files path hash c,
              refl,
              retired-HasModel load path s t e,
              (λ z. (model-new load path s t f e).1 (sym r0 ∙ z)),
              r1 ∙ ap (λ c. List.◌∷◌ c []) (sym r0),
              r2 ∙ k.2,
            )
    ]
  ]

  same-Owns : (t : InferenceStage) → t.ctx ≡ s.ctx → t.contexts ≡ s.contexts → Owns s → Owns t
  same-Owns t e e' o = elim o [
    | idle z c ↦ idle (e ∙ z) (e' ∙ c)
    | holds z c ↦ holds (λ h. z (sym e ∙ h)) (e' ∙ c ∙ ap (λ c. List.◌∷◌ c []) (sym e))
  ]

  -- Whatever its outcome, a switch leaves no context but that of the stage's model.
  pub switch_model-Owns : IsFresh load s → Owns s → Owns (switch_model files load path hash s).1
  switch_model-Owns f o = elim (Bool-cases (switch_model files load path hash s).0) [
    | inl h ↦
        let (r0, r1, r2, r3, r4, r5) = switch_model-switches f o h in
        holds (model-new load path s (switch_model files load path hash s).1 f r2).0 r4
    | inr h ↦ elim (switch_model-restores f h) [
      | inl e ↦ same-Owns _ (ap (λ t. t.ctx) e) (ap (λ t. t.contexts) e) o
      | inr (z, e) ↦ same-Owns _ (ap (λ t. t.ctx) e) (ap (λ t. t.contexts) e) o
    ]
  ]
