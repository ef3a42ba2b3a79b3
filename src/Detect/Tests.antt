-- ===== src/Detect/Tests.antt =====
-- One cell of the coarsest grid, on natural numbers for floats.
use aiot_edge_gateway.Prelude.{ℕ, ◌+◌, ◌-◌, ◌*◌, ◌/◌, ◌≡◌, refl, [], ◌∷◌, All, ltb, length}
use aiot_edge_gateway.Detect.Boxes.{
  Float, Detection, calc_iou, sigmoid, overlaps, mark, suppress_loop, suppress,
}
use aiot_edge_gateway.Detect.Decode.{
  Output, Setting, anchors, place, best_class, decode_cell, decode_grid, decode_output,
  decode_outputs, detect,
}
use aiot_edge_gateway.Detect.Suppress.{AreApart, IsCovered, detect-covers}

abbrev ops : Float ℕ
ops = record {
  of_nat = λ n. n;
  half = 0;
  add = ◌+◌;
  sub = ◌-◌;
  mul = ◌*◌;
  div = ◌/◌;
  exp = λ n. n;
  lt = ltb;
}

abbrev setting : Setting ℕ
setting = record {
  input_size = 32;
  conf_threshold = 1;
  iou_threshold = 0;
  letterbox_scale = 1;
  pad_x = 0;
  pad_y = 0;
}

abbrev head : Output ℕ
head = record { floats = λ i. 1; size = 255; dims = 1 ∷ 255 ∷ 1 ∷ 1 ∷ [] }

three-found : length (decode_outputs ops setting (head ∷ [])) ≡ 3
unfolding decode_outputs decode_output anchors decode_grid decode_cell best_class sigmoid place
three-found = refl

abbrev box : ℕ → Detection ℕ
box confidence = record { class_id = 2; confidence = confidence; x = 4; y = 4; w = 10; h = 10 }

suppress-twin : suppress ops 0 (box 9 ∷ box 7 ∷ []) ≡ box 9 ∷ []
unfolding suppress suppress_loop mark overlaps calc_iou
suppress-twin = refl

detect-covers_example :
    (let kept = detect ops setting (λ ds. ds) (head ∷ []) in
      AreApart ops 0 kept × All (IsCovered ops 0 kept) (decode_outputs ops setting (head ∷ [])))
detect-covers_example = detect-covers ops setting (λ ds. ds) (head ∷ [])
