-- ===== src/Core/Messages.antt =====
-- The callbacks of the core's event loop (gateway_core/main.cpp, lines 477-483 and 600-805). The
-- messages that name a node print its number, which is a parameter.
use aiot_edge_gateway.Prelude.{
  ℕ, ◌+◌, Bool, true, false, not, ◌&&◌, ◌||◌, Option, none, some, List, [], ◌∷◌, ◌++◌, leb, ◌==◌,
  if◌then◌else◌,
}
use aiot_edge_gateway.Prelude.Text.{Text, codes, is_empty}
use aiot_edge_gateway.Wire.Codec.{InternalMessage, encode_internal_msg}
use aiot_edge_gateway.Ota.Manager.{on_model_switch_ack, on_model_switch_nack}
use aiot_edge_gateway.Core.Commands.{
  DbRecord, Effect, to_monitor, pushed, published, stored_offline, heartbeat, fused, ruled,
  checked_timeout, published_shm, queried, Core, Written, send_to_engine, add, cmd_start_analysis,
}

-- What the core meets while it handles a message: what a write returns, whether MQTT is connected, and
-- how a number is printed.
pub record World : Type 0 where
  pub write : ℕ → List ℕ → Written
  pub mqtt_connected : Bool
  pub to_string : ℕ → Text

abbrev pub is_fd : Option ℕ → ℕ → Bool
is_fd none fd = false
is_fd (some d) fd = d == fd

unfoldable pub on_disconnect : ℕ → Core → Core
on_disconnect fd c = record c {
  engine_cmd_fd = if is_fd c.engine_cmd_fd fd then none else c.engine_cmd_fd;
  access_cmd_fd = if is_fd c.access_cmd_fd fd then none else c.access_cmd_fd;
}

-- The descriptor of the sender; an engine that is new is told to start again what ran last.
unfoldable pub remember_sender : World → ℕ → InternalMessage → Core → Core
remember_sender w fd msg c =
    if msg.source_type == 3
    then (let is_new_connection = not (is_fd c.engine_cmd_fd fd) in
        let known = record c { engine_cmd_fd = some fd } in
        if is_new_connection && not (is_empty c.last_analysis_payload)
        then (send_to_engine w.write cmd_start_analysis c.last_analysis_payload known).1
        else known)
    else record c { access_cmd_fd = some fd }

abbrev pub alarm_topic : Text
alarm_topic = codes "spBv1.0/edge_gateway/DALARM/gw001"

abbrev pub data_topic : Text
data_topic = codes "spBv1.0/edge_gateway/DDATA/gw001"

-- To the broker, or to the store of what could not be sent.
unfoldable pub send_up : World → Text → Text → ℕ → Effect
send_up w topic payload priority =
    if w.mqtt_connected then published topic payload else stored_offline topic payload priority

unfoldable pub on_model_nack : World → InternalMessage → Core → Core
on_model_nack w msg c =
    let nack_alarm =
      codes "模型切换失败 node=" ++ (w.to_string msg.node_id ++ (codes " reason=" ++ msg.payload)) in
    add (send_up w alarm_topic nack_alarm 1 ∷ [])
      (record c { ota = on_model_switch_nack c.ota msg.payload })

unfoldable pub on_fatal : World → InternalMessage → Core → Core
on_fatal w msg c =
    let fatal_alarm =
      codes "引擎FATAL node=" ++ (w.to_string msg.node_id ++ (codes " reason=" ++ msg.payload)) in
    let db_record : DbRecord = record {
      is_alarm = true;
      source_type = msg.source_type;
      node_id = msg.node_id;
      tlv_type = msg.tlv_type;
      content = msg.payload;
    } in
    add (pushed db_record ∷ send_up w alarm_topic fatal_alarm 1 ∷ []) c

unfoldable pub forward_snapshot : InternalMessage → Core → Core
forward_snapshot msg c = add (to_monitor (encode_internal_msg msg) ∷ published_shm ∷ []) c

unfoldable pub on_engine_message : World → InternalMessage → Core → Core
on_engine_message w msg c =
    if msg.tlv_type == 5
    then add (heartbeat msg ∷ []) c
    else if msg.tlv_type == 7
    then forward_snapshot msg c
    else if msg.tlv_type == 4
    then add (fused msg ∷ []) c
    else if msg.tlv_type == 19
    then record c { ota = on_model_switch_ack c.ota }
    else if msg.tlv_type == 20
    then on_model_nack w msg c
    else if msg.tlv_type == 254
    then on_fatal w msg c
    else c

unfoldable pub record_sensor : InternalMessage → Core → Core
record_sensor msg c =
    let db_record : DbRecord = record {
      is_alarm = false;
      source_type = msg.source_type;
      node_id = msg.node_id;
      tlv_type = msg.tlv_type;
      content = msg.payload;
    } in
    add (fused msg ∷ pushed db_record ∷ ruled msg ∷ []) c

-- The snapshot and the message go out; each hundredth message the silent engines are looked for.
unfoldable pub send_sensor : World → InternalMessage → Core → Core
send_sensor w msg c =
    let done = add (published_shm ∷ send_up w data_topic msg.payload 0 ∷ []) c in
    if leb 100 (c.rule_periodic_counter + 1)
    then add (checked_timeout ∷ []) (record done { rule_periodic_counter = 0 })
    else record done { rule_periodic_counter = c.rule_periodic_counter + 1 }

unfoldable pub on_sensor_message : World → InternalMessage → Core → Core
on_sensor_message w msg c = send_sensor w msg (record_sensor msg c)

unfoldable pub on_data : World → ℕ → InternalMessage → Core → Core
on_data w fd msg c =
    if (msg.tlv_type == 32) || (msg.tlv_type == 34)
    then add (queried msg ∷ []) c
    else (let c' = remember_sender w fd msg c in
        if msg.source_type == 3 then on_engine_message w msg c' else on_sensor_message w msg c')
