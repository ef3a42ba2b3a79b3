-- ===== src/Fusion/Laws.antt =====
-- Where the detections of a frame are read, and what their alarm says
-- (gateway_core/EventFusion.cpp, lines 23-107).
use aiot_edge_gateway.Prelude.{
  ℕ, zero, suc, ◌+◌, ◌*◌, ◌%◌, ◌^◌, max, ◌<◌, ◌≤◌, ◌≡◌, ◌⊎◌, refl, sym, ap, ◌∙◌, Bool, true, false,
  ◌&&◌, not, Option, none, some, List, [], ◌∷◌, ◌++◌, length, get_elem?, ltb, All, arith, inl, inr,
  Bool-cases, Option-cases, le→ltb, lt→ltb,
}
use aiot_edge_gateway.Prelude.Bytes.{le32, read_le32}
use aiot_edge_gateway.Wire.Codec.{InternalMessage}
use aiot_edge_gateway.Fusion.Evaluate.{
  FusionRule, EventFusion, det_size, places, is_batch, det_places, class_ids, rule_matches,
  process_rules, process_dets, alarm, evaluate_frame, to_size,
}

places_within :
    (l pos count : ℕ) → pos + count * det_size ≤ l → All (λ p. p + det_size ≤ l) (places pos count)
places_within l pos zero h = tt
places_within l pos (suc count) h =
    (omega (arith, h), places_within l (pos + det_size) count (omega (arith, h)))

head_is : {A : Type 0} (x y : A) → Option.some x ≡ some y → x ≡ y
head_is {A = A} x y h = ap (λ o. elim o as (λ _. A) [ none ↦ x | some z ↦ z ]) h

batch-length :
    (payload : List ℕ)
    → is_batch payload ≡ true
    → length payload ≡ (4 + to_size (read_le32 payload 0) * det_size) % 2 ^ 64
unfolding is_batch
batch-length payload h = ground arith

batch-fits :
    (l n : ℕ)
    → l ≡ (4 + to_size n * det_size) % 2 ^ 64
    → ltb n (2 ^ 31) ≡ true
    → 4 + n * det_size ≤ l
batch-fits l n e h = ground arith

single-fits : (b : Bool) (l : ℕ) → (b ≡ true) ⊎ (det_size ≤ l) → b ≡ false → 0 + 1 * det_size ≤ l
single-fits b l (inl e) f = absurd (ground arith)
single-fits b l (inr h) f = omega (arith, h)

-- A frame that `evaluate` does not turn down, which is a batch or as long as one detection, has each
-- place where a detection is read, and the 24 bytes from there on, inside its payload.
pub det_places-within :
    (payload : List ℕ)
    → (is_batch payload ≡ true) ⊎ (det_size ≤ length payload)
    → 4 ≤ length payload
    → All (λ p. p + det_size ≤ length payload) (det_places payload)
unfolding det_places
det_places-within payload h l = elim (Bool-cases (is_batch payload)) [
  | inl b ↦
      rw (det_places, b)
        (elim (Bool-cases (ltb (read_le32 payload 0) (2 ^ 31))) [
          | inl n ↦ rw n (
              places_within (length payload) 4 (read_le32 payload 0)
                (batch-fits (length payload) (read_le32 payload 0) (batch-length payload b) n))
          | inr n ↦ rw n tt
        ])
  | inr b ↦
      rw (det_places, b)
        (places_within (length payload) 0 1 (single-fits (is_batch payload) (length payload) h b))
]

none≢some : {A : Type 0} {a : A} → Option.none ≡ some a → ⊥
none≢some h = ground arith

taken-guard : (b : Bool) (l : ℕ) → (b ≡ true) ⊎ (det_size ≤ l) → (not b && ltb l det_size) ≡ false
taken-guard b l (inl e) = ground arith
taken-guard b l (inr h) = ground arith

module _ {Float : Type 0} (float_of : List ℕ → Float) (zero_float : Float) where
  process_rules-ge :
      (now : ℕ) (cached : Option (Float × ℕ)) (present : List ℕ) (c : ℕ)
      (rules : List (FusionRule Float)) (s t : ℕ)
      → process_rules float_of zero_float now cached present c rules s ≡ some t
      → s ≤ t
  unfolding process_rules
  process_rules-ge now cached present c [] s t h = ground arith
  process_rules-ge now cached present c (r ∷ rules) s t h = ground (
    arith,
    process_rules-ge now cached present c rules s t,
    process_rules-ge now cached present c rules (max s r.output_severity) t,
  )

  process_rules-covers :
      (now : ℕ) (cached : Option (Float × ℕ)) (present : List ℕ) (c : ℕ)
      (rules : List (FusionRule Float)) (s t j : ℕ) (rule : FusionRule Float)
      → process_rules float_of zero_float now cached present c rules s ≡ some t
      → get_elem? rules j ≡ some rule
      → rule_matches float_of zero_float now cached present c rule ≡ some true
      → rule.output_severity ≤ t
  unfolding process_rules
  process_rules-covers now cached present c [] s t j rule h g m = ground arith
  process_rules-covers now cached present c (r ∷ rules) s t zero rule h g m =
      process_rules-first now cached present c r rules s t h
        (ap (rule_matches float_of zero_float now cached present c) (head_is r rule g) ∙ m)
        (ap (λ x. x.output_severity) (head_is r rule g))
    where
      process_rules-first :
          (now : ℕ) (cached : Option (Float × ℕ)) (present : List ℕ) (c : ℕ) (r : FusionRule Float)
          (rules : List (FusionRule Float)) (s t : ℕ)
          → process_rules float_of zero_float now cached present c (r ∷ rules) s ≡ some t
          → rule_matches float_of zero_float now cached present c r ≡ some true
          → r.output_severity ≡ rule.output_severity
          → rule.output_severity ≤ t
      process_rules-first now cached present c r rules s t h m e =
          ground (arith, process_rules-ge now cached present c rules (max s r.output_severity) t)
  process_rules-covers now cached present c (r ∷ rules) s t (suc j) rule h g m = ground (
    arith,
    process_rules-covers now cached present c rules s t j rule,
    process_rules-covers now cached present c rules (max s r.output_severity) t j rule,
  )

  process_dets-ge :
      (now : ℕ) (cached : Option (Float × ℕ)) (present classes : List ℕ)
      (rules : List (FusionRule Float)) (s t : ℕ)
      → process_dets float_of zero_float now cached present classes rules s ≡ some t
      → s ≤ t
  unfolding process_dets
  process_dets-ge now cached present [] rules s t h = ground arith
  process_dets-ge now cached present (c ∷ classes) rules s t h =
      elim (Option-cases (process_rules float_of zero_float now cached present c rules s)) [
        | inl e ↦ ground arith
        | inr (u, e) ↦ ground (
          arith,
          process_rules-ge now cached present c rules s u,
          process_dets-ge now cached present classes rules u t,
        )
      ]

  process_dets-covers :
      (now : ℕ) (cached : Option (Float × ℕ)) (present classes : List ℕ)
      (rules : List (FusionRule Float)) (s t i j c : ℕ) (rule : FusionRule Float)
      → process_dets float_of zero_float now cached present classes rules s ≡ some t
      → get_elem? classes i ≡ some c
      → get_elem? rules j ≡ some rule
      → rule_matches float_of zero_float now cached present c rule ≡ some true
      → rule.output_severity ≤ t
  unfolding process_dets
  process_dets-covers now cached present [] rules s t i j c rule h f g m = ground arith
  process_dets-covers now cached present (x ∷ xs) rules s t zero j c rule h f g m =
      elim (Option-cases (process_rules float_of zero_float now cached present x rules s)) [
        | inl e ↦ ground arith
        | inr (u, e) ↦ ground (
          arith,
          process_rules-covers now cached present x rules s u j rule e g (
              ap (λ y. rule_matches float_of zero_float now cached present y rule) (head_is x c f)
              ∙ m),
          process_dets-ge now cached present xs rules u t,
        )
      ]
  process_dets-covers now cached present (x ∷ xs) rules s t (suc i) j c rule h f g m =
      elim (Option-cases (process_rules float_of zero_float now cached present x rules s)) [
        | inl e ↦ ground arith
        | inr (u, e) ↦
            ground (arith, process_dets-covers now cached present xs rules u t i j c rule)
      ]

  -- Where a frame that is not turned down meets no empty condition, and one of its detections meets a
  -- rule that matches it and has a severity, the frame makes an alarm: its own payload and then a
  -- severity, which is at least that of the rule.
  pub evaluate_frame-alarm :
      (now : ℕ) (msg : InternalMessage) (f : EventFusion Float) (out : Option InternalMessage)
      (i j c : ℕ) (rule : FusionRule Float)
      → evaluate_frame float_of zero_float now msg f ≡ some out
      → 4 ≤ length msg.payload
      → (is_batch msg.payload ≡ true) ⊎ (det_size ≤ length msg.payload)
      → (let classes = class_ids msg.payload (det_places msg.payload) in
          (get_elem? classes i ≡ some c)
          × (rule_matches float_of zero_float now (f.sensor_cache msg.node_id) classes c rule
              ≡ some true))
      → get_elem? f.rules j ≡ some rule
      → 0 < rule.output_severity
      → (severity : ℕ) × (rule.output_severity ≤ severity)
        × (out
            ≡ some (record {
              source_type = 3;
              node_id = msg.node_id;
              tlv_type = 6;
              payload = msg.payload ++ le32 severity;
            }))
  unfolding evaluate_frame
  evaluate_frame-alarm now msg f out i j c rule h l k (g, m) r p =
      elim (Option-cases (
        process_dets float_of zero_float now (f.sensor_cache msg.node_id)
          (class_ids msg.payload (det_places msg.payload))
          (class_ids msg.payload (det_places msg.payload)) f.rules 0)) [
            | inl e ↦ absurd (none≢some (sym (thrown e) ∙ h))
            | inr (u, e) ↦
                let covers =
                  process_dets-covers now (f.sensor_cache msg.node_id)
                    (class_ids msg.payload (det_places msg.payload))
                    (class_ids msg.payload (det_places msg.payload)) f.rules 0 u i j c rule e g r
                    m in
                (
                  u,
                  covers,
                  sym (head_is (alarm float_of zero_float msg u) out (sym (answered u e) ∙ h))
                      ∙ rw (lt→ltb 0 u (omega (arith, covers, p))) refl,
                )
          ]
    where
      guard : (not (is_batch msg.payload) && ltb (length msg.payload) det_size) ≡ false
      guard = taken-guard (is_batch msg.payload) (length msg.payload) k

      thrown :
          process_dets float_of zero_float now
              (f.sensor_cache msg.node_id)
              (class_ids msg.payload (det_places msg.payload))
              (class_ids msg.payload (det_places msg.payload))
              f.rules
              0
            ≡ none
          → evaluate_frame float_of zero_float now msg f ≡ none
      thrown e = rw (evaluate_frame, le→ltb (length msg.payload) 4 l, guard, e) refl

      answered :
          (u : ℕ)
          → process_dets float_of zero_float now
              (f.sensor_cache msg.node_id)
              (class_ids msg.payload (det_places msg.payload))
              (class_ids msg.payload (det_places msg.payload))
              f.rules
              0
            ≡ some u
          → evaluate_frame float_of zero_float now msg f ≡ some (alarm float_of zero_float msg u)
      answered u e = rw (evaluate_frame, le→ltb (length msg.payload) 4 l, guard, e) refl
