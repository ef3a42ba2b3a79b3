-- ===== src/Detect/Boxes.antt =====
-- Boxes and their overlap (gateway_engine/pipeline/stages/PostprocessStage.cpp, lines 36-55 and
-- 207-228). The floats of the machine are a parameter.
use aiot_edge_gateway.Prelude.{
  ℕ, zero, suc, Bool, true, false, ◌&&◌, List, [], ◌∷◌, length, ◌==◌, if◌then◌else◌,
}

-- The operations on `float` that the stage uses; `lt` is `<`.
pub record Float {ℓ} (F : Type ℓ) : Type ℓ where
  pub of_nat : ℕ → F
  pub half : F
  pub add : F → F → F
  pub sub : F → F → F
  pub mul : F → F → F
  pub div : F → F → F
  pub exp : F → F
  pub lt : F → F → Bool

pub record Detection {ℓ} (F : Type ℓ) : Type ℓ where
  pub class_id : ℕ
  pub confidence : F
  pub x : F
  pub y : F
  pub w : F
  pub h : F

module _ {ℓ} {F : Type ℓ} (ops : Float F) where
  abbrev pub float_max : F → F → F
  float_max a b = if ops.lt a b then b else a

  abbrev pub float_min : F → F → F
  float_min a b = if ops.lt b a then b else a

  unfoldable pub calc_iou : Detection F → Detection F → F
  calc_iou a b =
      let x1 = float_max a.x b.x in
      let y1 = float_max a.y b.y in
      let x2 = float_min (ops.add a.x a.w) (ops.add b.x b.w) in
      let y2 = float_min (ops.add a.y a.h) (ops.add b.y b.h) in
      let inter_w = float_max (ops.of_nat 0) (ops.sub x2 x1) in
      let inter_h = float_max (ops.of_nat 0) (ops.sub y2 y1) in
      let inter = ops.mul inter_w inter_h in
      let area_a = ops.mul a.w a.h in
      let area_b = ops.mul b.w b.h in
      let uni = ops.sub (ops.add area_a area_b) inter in
      if ops.lt (ops.of_nat 0) uni then ops.div inter uni else ops.of_nat 0

  unfoldable pub sigmoid : F → F
  sigmoid x = ops.div (ops.of_nat 1) (ops.add (ops.of_nat 1) (ops.exp (ops.sub (ops.of_nat 0) x)))

  -- Of the same class, and more than the threshold in common.
  unfoldable pub overlaps : F → Detection F → Detection F → Bool
  overlaps iou_threshold a b = (a.class_id == b.class_id) && ops.lt iou_threshold (calc_iou a b)

  -- A detection, and whether it is suppressed.
  unfoldable pub mark : F → Detection F → List (Detection F × Bool) → List (Detection F × Bool)
  mark iou_threshold a [] = []
  mark iou_threshold a ((b, suppressed) ∷ ds) =
      (b, (if suppressed then true else overlaps iou_threshold a b)) ∷ mark iou_threshold a ds

  -- The loop over the detections, which takes one of them in each round.
  unfoldable pub suppress_loop : F → ℕ → List (Detection F × Bool) → List (Detection F)
  suppress_loop iou_threshold zero ds = []
  suppress_loop iou_threshold (suc n) [] = []
  suppress_loop iou_threshold (suc n) ((a, true) ∷ ds) = suppress_loop iou_threshold n ds
  suppress_loop iou_threshold (suc n) ((a, false) ∷ ds) =
      a ∷ suppress_loop iou_threshold n (mark iou_threshold a ds)

  abbrev pub unmarked : List (Detection F) → List (Detection F × Bool)
  unmarked [] = []
  unmarked (d ∷ ds) = (d, false) ∷ unmarked ds

  -- The suppression, on detections that are sorted.
  unfoldable pub suppress : F → List (Detection F) → List (Detection F)
  suppress iou_threshold ds = suppress_loop iou_threshold (length ds) (unmarked ds)
