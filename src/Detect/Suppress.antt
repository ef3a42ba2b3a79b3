-- ===== src/Detect/Suppress.antt =====
-- What the suppression keeps (gateway_engine/pipeline/stages/PostprocessStage.cpp, lines 213-226).
use aiot_edge_gateway.Prelude.{
  ℕ, zero, suc, ◌≤◌, ◌≡◌, ◌⊎◌, inl, inr, refl, ap, Bool, true, false, List, [], ◌∷◌, length, All,
  arith, Bool-cases,
}
use aiot_edge_gateway.Detect.Boxes.{
  Float, Detection, overlaps, mark, suppress_loop, unmarked, suppress,
}
use aiot_edge_gateway.Detect.Decode.{Output, Setting, decode_outputs, detect}

-- Some element satisfies the predicate.
pub data Any {ℓ ℓ'} {A : Type ℓ} (P : A → Type ℓ') : List A → Type (ℓ ⊔ ℓ') where
  here : {a : A} {as1 : List A} → P a → Any P (a ∷ as1)
  there : {a : A} {as1 : List A} → Any P as1 → Any P (a ∷ as1)

module _ {ℓ} {F : Type ℓ} (ops : Float F) (iou_threshold : F) where
  -- No two of the boxes overlap.
  abbrev pub AreApart : List (Detection F) → Type ℓ
  AreApart [] = Unit
  AreApart (d ∷ ds) = All (λ e. overlaps ops iou_threshold d e ≡ false) ds × AreApart ds

  length-mark :
      (a : Detection F) (ds : List (Detection F × Bool))
      → length (mark ops iou_threshold a ds) ≡ length ds
  unfolding mark
  length-mark a [] = refl
  length-mark a ((b, s) ∷ ds) = ap suc (length-mark a ds)

  -- A detection that is still open does not overlap the box.
  abbrev pub IsClear : Detection F → Detection F × Bool → Type 0
  IsClear a p = (p.1 ≡ true) ⊎ (overlaps ops iou_threshold a p.0 ≡ false)

  mark-IsClear_self :
      (a : Detection F) (ds : List (Detection F × Bool))
      → All (IsClear a) (mark ops iou_threshold a ds)
  unfolding mark
  mark-IsClear_self a [] = tt
  mark-IsClear_self a ((b, true) ∷ ds) = (inl refl, mark-IsClear_self a ds)
  mark-IsClear_self a ((b, false) ∷ ds) = (Bool-cases _, mark-IsClear_self a ds)

  mark-IsClear :
      (a c : Detection F) (ds : List (Detection F × Bool))
      → All (IsClear a) ds
      → All (IsClear a) (mark ops iou_threshold c ds)
  unfolding mark
  mark-IsClear a c [] h = tt
  mark-IsClear a c ((b, true) ∷ ds) (h, hs) = (inl refl, mark-IsClear a c ds hs)
  mark-IsClear a c ((b, false) ∷ ds) (h, hs) =
      (elim h [ inl e ↦ ground arith | inr e ↦ inr e ], mark-IsClear a c ds hs)

  loop-clear :
      (n : ℕ) (a : Detection F) (ds : List (Detection F × Bool))
      → All (IsClear a) ds
      → All (λ e. overlaps ops iou_threshold a e ≡ false) (suppress_loop ops iou_threshold n ds)
  unfolding suppress_loop
  loop-clear zero a ds h = tt
  loop-clear (suc n) a [] h = tt
  loop-clear (suc n) a ((b, true) ∷ ds) (h, hs) = loop-clear n a ds hs
  loop-clear (suc n) a ((b, false) ∷ ds) (h, hs) =
      (elim h [ inl e ↦ ground arith | inr e ↦ e ], loop-clear n a _ (mark-IsClear a b ds hs))

  loop-AreApart :
      (n : ℕ) (ds : List (Detection F × Bool)) → AreApart (suppress_loop ops iou_threshold n ds)
  unfolding suppress_loop
  loop-AreApart zero ds = tt
  loop-AreApart (suc n) [] = tt
  loop-AreApart (suc n) ((a, true) ∷ ds) = loop-AreApart n ds
  loop-AreApart (suc n) ((a, false) ∷ ds) =
      (loop-clear n a _ (mark-IsClear_self a ds), loop-AreApart n _)

  -- The detection is kept, or a kept one overlaps it.
  abbrev pub IsCovered : List (Detection F) → Detection F → Type ℓ
  IsCovered kept d = Any (λ k. (k ≡ d) ⊎ (overlaps ops iou_threshold k d ≡ true)) kept

  abbrev IsSettled : List (Detection F) → Detection F × Bool → Type ℓ
  IsSettled kept p = (p.1 ≡ true) ⊎ IsCovered kept p.0

  settle :
      (a : Detection F) (kept : List (Detection F)) (ds : List (Detection F × Bool))
      → All (IsSettled kept) (mark ops iou_threshold a ds)
      → All (IsSettled (a ∷ kept)) ds
  unfolding mark
  settle a kept [] h = tt
  settle a kept ((b, true) ∷ ds) (h, hs) = (inl refl, settle a kept ds hs)
  settle a kept ((b, false) ∷ ds) (h, hs) =
      (elim h [ inl e ↦ inr (here (inr e)) | inr c ↦ inr (there c) ], settle a kept ds hs)

  loop-settles :
      (n : ℕ) (ds : List (Detection F × Bool))
      → length ds ≤ n
      → All (IsSettled (suppress_loop ops iou_threshold n ds)) ds
  unfolding suppress_loop
  loop-settles zero [] h = tt
  loop-settles zero (d ∷ ds) h = absurd (omega arith)
  loop-settles (suc n) [] h = tt
  loop-settles (suc n) ((a, true) ∷ ds) h = (inl refl, loop-settles n ds (omega arith))
  loop-settles (suc n) ((a, false) ∷ ds) h = (
    inr (here (inl refl)),
    settle a _ ds (loop-settles n (mark ops iou_threshold a ds) (omega (arith, length-mark a ds))),
  )

  unmarked_lem :
      (kept ds : List (Detection F))
      → All (IsSettled kept) (unmarked ops ds)
      → All (IsCovered kept) ds
  unmarked_lem kept [] h = tt
  unmarked_lem kept (d ∷ ds) (h, hs) =
      (elim h [ inl e ↦ ground arith | inr c ↦ c ], unmarked_lem kept ds hs)

  length-unmarked : (ds : List (Detection F)) → length (unmarked ops ds) ≡ length ds
  length-unmarked [] = refl
  length-unmarked (d ∷ ds) = ap suc (length-unmarked ds)

  -- Whatever the floats' operations do: of the boxes that are kept, none of a class overlaps a later
  -- one of that class by more than the threshold, and each detection is kept, or a kept one of its
  -- class overlaps it by more than that.
  pub suppress_lem :
      (ds : List (Detection F))
      → AreApart (suppress ops iou_threshold ds)
        × All (IsCovered (suppress ops iou_threshold ds)) ds
  unfolding suppress
  suppress_lem ds = (
    loop-AreApart (length ds) (unmarked ops ds),
    unmarked_lem _ ds
        (loop-settles (length ds) (unmarked ops ds) (omega (arith, length-unmarked ds))),
  )

-- Of the boxes that are made of a model's outputs, whatever the floats' operations and the sort do:
-- none of a class overlaps a later one of that class by more than the threshold, and each detection
-- that was sorted is kept, or a kept one of its class overlaps it by more than that.
pub detect-covers {ℓ} :
    {F : Type ℓ} (ops : Float F) (set : Setting F) (sort : List (Detection F) → List (Detection F))
    (outs : List (Output F))
    → (let kept = detect ops set sort outs in
        AreApart ops set.iou_threshold kept
        × All (IsCovered ops set.iou_threshold kept) (sort (decode_outputs ops set outs)))
unfolding detect
detect-covers ops set sort outs =
    suppress_lem ops set.iou_threshold (sort (decode_outputs ops set outs))
