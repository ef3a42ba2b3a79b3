-- ===== src/Detect/Decode.antt =====
-- The boxes in a model's outputs (gateway_engine/pipeline/stages/PostprocessStage.cpp, lines 112-228).
-- An output is a function of the place, so that a read behind its end is one too. The dimensions of an
-- output are below 2^31. What `std::sort` makes of the detections is a parameter.
use aiot_edge_gateway.Prelude.{
  ℕ, zero, suc, ◌+◌, ◌*◌, ◌/◌, ◌||◌, Option, none, some, List, [], ◌∷◌, ◌++◌, get_or, length, ltb,
  ◌==◌, if◌then◌else◌,
}
use aiot_edge_gateway.Detect.Boxes.{Float, Detection, sigmoid, suppress}

-- An output: its floats, how many they are, and its dimensions.
pub record Output {ℓ} (F : Type ℓ) : Type ℓ where
  pub floats : ℕ → F
  pub size : ℕ
  pub dims : List ℕ

-- What the frame says of its letterbox, and the stage's thresholds.
pub record Setting {ℓ} (F : Type ℓ) : Type ℓ where
  pub input_size : ℕ
  pub conf_threshold : F
  pub iou_threshold : F
  pub letterbox_scale : F
  pub pad_x : ℕ
  pub pad_y : ℕ

-- `kAnchors`, by the stride.
unfoldable pub anchors : ℕ → Option (List ℕ)
anchors stride =
    if stride == 8
    then some (10 ∷ 13 ∷ 16 ∷ 30 ∷ 33 ∷ 23 ∷ [])
    else if stride == 16
    then some (30 ∷ 61 ∷ 62 ∷ 45 ∷ 59 ∷ 119 ∷ [])
    else if stride == 32
    then some (116 ∷ 90 ∷ 156 ∷ 198 ∷ 373 ∷ 326 ∷ [])
    else none

abbrev pub num_classes : ℕ
num_classes = 80

abbrev pub prop_box_size : ℕ
prop_box_size = 85

-- The place of a field of a cell.
unfoldable pub place : ℕ → ℕ → ℕ → ℕ → ℕ
place a field grid_len cell = (a * prop_box_size + field) * grid_len + cell

-- A detection in front of the others, or none.
abbrev pub push_detection {ℓ} :
    {F : Type ℓ} → Option (Detection F) → List (Detection F) → List (Detection F)
push_detection none ds = ds
push_detection (some d) ds = d ∷ ds

module _ {ℓ} {F : Type ℓ} (ops : Float F) (set : Setting F) where
  -- The classes from `c` on, `n` of them, after the best one so far.
  unfoldable pub best_class : (ℕ → F) → ℕ → ℕ → F → ℕ → F × ℕ
  best_class score zero c max_score max_class = (max_score, max_class)
  best_class score (suc n) c max_score max_class =
      let better = ops.lt max_score (score c) in
      best_class score n (c + 1) (if better then score c else max_score)
        (if better then c else max_class)

  abbrev pub clamp : F → F
  clamp v = if ops.lt v (ops.of_nat 0) then ops.of_nat 0 else v

  unfoldable pub decode_cell : (ℕ → F) → List ℕ → ℕ → ℕ → ℕ → ℕ → ℕ → ℕ → Option (Detection F)
  decode_cell d anchor stride grid_h grid_w a i j =
      let field : ℕ → F = λ f. sigmoid ops (d (place a f (grid_h * grid_w) (i * grid_w + j))) in
      let two = ops.of_nat 2 in
      let x = ops.sub (ops.mul (field 0) two) ops.half in
      let y = ops.sub (ops.mul (field 1) two) ops.half in
      let w = ops.mul (field 2) two in
      let h = ops.mul (field 3) two in
      let cx = ops.mul (ops.add x (ops.of_nat j)) (ops.of_nat stride) in
      let cy = ops.mul (ops.add y (ops.of_nat i)) (ops.of_nat stride) in
      let bw = ops.mul (ops.mul w w) (ops.of_nat (get_or anchor (a * 2) 0)) in
      let bh = ops.mul (ops.mul h h) (ops.of_nat (get_or anchor (a * 2 + 1) 0)) in
      let (max_score, max_class) = best_class (λ c. field (5 + c)) num_classes 0 (ops.of_nat 0) 0 in
      let conf = ops.mul (field 4) max_score in
      let left = ops.sub (ops.sub cx (ops.mul bw ops.half)) (ops.of_nat set.pad_x) in
      let top = ops.sub (ops.sub cy (ops.mul bh ops.half)) (ops.of_nat set.pad_y) in
      if ops.lt (field 4) set.conf_threshold || ops.lt conf set.conf_threshold
      then none
      else some (record {
        class_id = max_class;
        confidence = conf;
        x = clamp (ops.div left set.letterbox_scale);
        y = clamp (ops.div top set.letterbox_scale);
        w = ops.div bw set.letterbox_scale;
        h = ops.div bh set.letterbox_scale;
      })

  -- What a loop collects over the first `n` numbers from `i` on.
  abbrev pub collect {ℓ'} : {A : Type ℓ'} → (ℕ → List A → List A) → ℕ → ℕ → List A
  collect f zero i = []
  collect f (suc n) i = f i (collect f n (i + 1))

  -- The cells of all three anchors, row by row.
  unfoldable pub decode_grid : (ℕ → F) → List ℕ → ℕ → ℕ → ℕ → List (Detection F)
  decode_grid d anchor stride grid_h grid_w =
      collect
        (λ a rest.
          collect
            (λ i rest_i.
              collect
                (λ j rest_j.
                  push_detection (decode_cell d anchor stride grid_h grid_w a i j) rest_j)
                grid_w 0
              ++ rest_i)
            grid_h 0
          ++ rest)
        3 0

  -- One output; one that is malformed has no boxes.
  unfoldable pub decode_output : Output F → List (Detection F)
  decode_output out =
      let grid_h = get_or out.dims 2 0 in
      let grid_w = get_or out.dims 3 0 in
      let stride = set.input_size / grid_h in
      if ltb (length out.dims) 4 || (out.size == 0)
      then []
      else if (grid_h == 0) || (grid_w == 0)
      then []
      else if stride == 0
      then []
      else elim (anchors stride) [
        | none ↦ []
        | some anchor ↦ decode_grid out.floats anchor stride grid_h grid_w
      ]

  unfoldable pub decode_outputs : List (Output F) → List (Detection F)
  decode_outputs [] = []
  decode_outputs (out ∷ outs) = decode_output out ++ decode_outputs outs

  unfoldable pub detect :
      (List (Detection F) → List (Detection F)) → List (Output F) → List (Detection F)
  detect sort outs = suppress ops set.iou_threshold (sort (decode_outputs outs))
