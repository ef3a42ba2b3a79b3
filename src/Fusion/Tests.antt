-- ===== src/Fusion/Tests.antt =====
-- One detection of class 1 next to a hot sensor. A float stands here for its four bytes as a number.
use aiot_edge_gateway.Prelude.{
  ℕ, ◌≤◌, ◌≡◌, refl, Option, none, some, List, [], ◌∷◌, ◌++◌, replicate, arith, inr, ltb,
}
use aiot_edge_gateway.Prelude.Bytes.{le32, read_le32}
use aiot_edge_gateway.Wire.Codec.{InternalMessage}
use aiot_edge_gateway.Fusion.Evaluate.{
  FusionRule, EventFusion, is_batch, det_places, condition_holds, rule_matches, process_rules,
  process_dets, evaluate_frame,
}
use aiot_edge_gateway.Fusion.Laws.{evaluate_frame-alarm}

abbrev payload : List ℕ
payload = replicate 20 0 ++ le32 1

abbrev message : InternalMessage
message = record { source_type = 3; node_id = 5; tlv_type = 4; payload = payload }

abbrev rule : FusionRule ℕ
rule = record {
  ai_class_id = 1;
  sensor_condition = some (λ v. ltb 50 v);
  output_severity = 2;
  requires_co_class = none;
  excludes_co_class = some 7;
}

abbrev fusion : EventFusion ℕ
fusion = record { sensor_cache = λ node_id. some (60, 100); rules = rule ∷ [] }

abbrev float_of : List ℕ → ℕ
float_of bytes = read_le32 bytes 0

abbrev alarm_of : ℕ → Option InternalMessage
alarm_of severity =
    some (record { source_type = 3; node_id = 5; tlv_type = 6; payload = payload ++ le32 severity })

evaluate_frame-alarm_example : (severity : ℕ) × (2 ≤ severity) × (alarm_of 2 ≡ alarm_of severity)
unfolding is_batch det_places condition_holds rule_matches process_rules process_dets evaluate_frame
evaluate_frame-alarm_example =
    evaluate_frame-alarm float_of 0 120 message fusion (alarm_of 2) 0 0 1 rule refl (omega arith)
      (inr (omega arith)) (refl, refl) refl (omega arith)
