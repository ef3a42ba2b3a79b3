-- ===== src/Fusion/Evaluate.antt =====
-- The class `EventFusion` (gateway_core/EventFusion.{h,cpp}), except for the loading of rules. A value
-- of a sensor is a float, of which the class only needs what a rule's condition says: the type of
-- floats, the value of four bytes, and 0.0 are parameters.
use aiot_edge_gateway.Prelude.{
  ℕ, zero, suc, ◌+◌, ◌-◌, ◌*◌, ◌%◌, ◌^◌, max, Bool, true, false, ◌&&◌, ◌||◌, not, Option, none,
  some, List, [], ◌∷◌, ◌++◌, length, take, ltb, leb, ◌==◌, if◌then◌else◌,
}
use aiot_edge_gateway.Prelude.Bytes.{le32, read_le32}
use aiot_edge_gateway.Wire.Codec.{InternalMessage}

-- `DET_SIZE` and `SENSOR_CACHE_TTL_SEC`
abbrev pub det_size : ℕ
det_size = 24

abbrev pub cache_ttl_sec : ℕ
cache_ttl_sec = 30

abbrev pub contains : List ℕ → ℕ → Bool
contains [] c = false
contains (x ∷ xs) c = x == c || contains xs c

-- An `int` of a message as the 64-bit number that it is cast to.
abbrev pub to_size : ℕ → ℕ
to_size num = if ltb num (2 ^ 31) then num else num + (2 ^ 64 - 2 ^ 32)

unfoldable pub is_batch : List ℕ → Bool
is_batch payload = length payload == (4 + to_size (read_le32 payload 0) * det_size) % 2 ^ 64

-- The places of `count` detections from `pos` on.
abbrev pub places : ℕ → ℕ → List ℕ
places pos zero = []
places pos (suc count) = pos ∷ places (pos + det_size) count

-- A loop of `int` indices runs no time up to a negative number.
unfoldable pub det_places : List ℕ → List ℕ
det_places payload =
    let num = read_le32 payload 0 in
    if is_batch payload then places 4 (if ltb num (2 ^ 31) then num else 0) else places 0 1

abbrev pub class_ids : List ℕ → List ℕ → List ℕ
class_ids payload [] = []
class_ids payload (pos ∷ rest) = read_le32 payload (pos + 20) ∷ class_ids payload rest

module _ (Float : Type 0) where
  -- No co-class is a negative number there, and no condition an empty `std::function`.
  pub record FusionRule : Type 0 where
    pub ai_class_id : ℕ
    pub sensor_condition : Option (Float → Bool)
    pub output_severity : ℕ
    pub requires_co_class : Option ℕ
    pub excludes_co_class : Option ℕ

  pub record EventFusion : Type 0 where
    -- The value and the time of each node's last reading.
    pub sensor_cache : ℕ → Option (Float × ℕ)
    pub rules : List FusionRule

  unfoldable pub add_rule : FusionRule → EventFusion → EventFusion
  add_rule rule f = record f { rules = f.rules ++ (rule ∷ []) }

  abbrev pub co_classes_fit : List ℕ → FusionRule → Bool
  co_classes_fit present rule =
      elim rule.requires_co_class [ none ↦ true | some c ↦ contains present c ]
      && elim rule.excludes_co_class [ none ↦ true | some c ↦ not (contains present c) ]

module _ {Float : Type 0} (float_of : List ℕ → Float) (zero_float : Float) where
  -- What the condition says of the node's reading; `none` is the exception of an empty function,
  -- which is only avoided where the node has no reading.
  unfoldable pub condition_holds : ℕ → Option (Float × ℕ) → FusionRule Float → Option Bool
  condition_holds now none rule = elim rule.sensor_condition [
    | none ↦ some false
    | some condition ↦ some (condition zero_float)
  ]
  condition_holds now (some (value, timestamp)) rule = elim rule.sensor_condition [
    | none ↦ none
    | some condition ↦
        some (condition (if ltb cache_ttl_sec (now - timestamp) then zero_float else value))
  ]

  unfoldable pub rule_matches : ℕ → Option (Float × ℕ) → List ℕ → ℕ → FusionRule Float → Option Bool
  rule_matches now cached present class_id rule =
      if rule.ai_class_id == class_id && co_classes_fit Float present rule
      then condition_holds now cached rule
      else some false

  -- The rules on one detection, from the severity so far.
  unfoldable pub process_rules :
      ℕ → Option (Float × ℕ) → List ℕ → ℕ → List (FusionRule Float) → ℕ → Option ℕ
  process_rules now cached present class_id [] severity = some severity
  process_rules now cached present class_id (rule ∷ rules) severity =
      elim (rule_matches now cached present class_id rule) [
        | none ↦ none
        | some matched ↦
            process_rules now cached present class_id rules
              (if matched then max severity rule.output_severity else severity)
      ]

  unfoldable pub process_dets :
      ℕ → Option (Float × ℕ) → List ℕ → List ℕ → List (FusionRule Float) → ℕ → Option ℕ
  process_dets now cached present [] rules severity = some severity
  process_dets now cached present (class_id ∷ class_ids) rules severity =
      elim (process_rules now cached present class_id rules severity) [
        | none ↦ none
        | some severity' ↦ process_dets now cached present class_ids rules severity'
      ]

  abbrev pub alarm : InternalMessage → ℕ → Option InternalMessage
  alarm msg severity =
      if ltb 0 severity
      then some (record {
        source_type = 3;
        node_id = msg.node_id;
        tlv_type = 6;
        payload = msg.payload ++ le32 severity;
      })
      else none

  -- The detections of one frame: `none` is the exception, `some none` is `std::nullopt`.
  unfoldable pub evaluate_frame :
      ℕ → InternalMessage → EventFusion Float → Option (Option InternalMessage)
  evaluate_frame now msg f =
      let classes = class_ids msg.payload (det_places msg.payload) in
      if ltb (length msg.payload) 4
      then some none
      else (if not (is_batch msg.payload) && ltb (length msg.payload) det_size
          then some none
          else elim (process_dets now (f.sensor_cache msg.node_id) classes classes f.rules 0) [
            | none ↦ none
            | some severity ↦ some (alarm msg severity)
          ])

  unfoldable pub evaluate :
      ℕ → InternalMessage → EventFusion Float → EventFusion Float × Option (Option InternalMessage)
  evaluate now msg f =
      if leb msg.source_type 2
      then (if leb 4 (length msg.payload)
          then (
            record f {
              sensor_cache = λ node_id.
                  if node_id == msg.node_id
                  then some (float_of (take 4 msg.payload), now)
                  else f.sensor_cache node_id;
            },
            some none,
          )
          else (f, some none))
      else (if msg.source_type == 3 then (f, evaluate_frame now msg f) else (f, some none))
