-- ===== src/Core/Commands.antt =====
-- The commands that the core sends over its sockets (gateway_core/main.cpp, lines 31-47 and 262-307).
-- `extract_json_str` of this file is the same function as that of gateway_core/RpcHandler.cpp.
use aiot_edge_gateway.Prelude.{
  ℕ, Bool, false, Option, none, some, List, [], ◌∷◌, ◌++◌, length, ◌==◌, take, if◌then◌else◌,
}
use aiot_edge_gateway.Prelude.Text.{Text, codes, is_empty, find_char}
use aiot_edge_gateway.Wire.Codec.{InternalMessage, encode_internal_msg}
use aiot_edge_gateway.Rpc.Handler.{extract_json_str}
use aiot_edge_gateway.Ota.Manager.{OtaManager}

pub record DbRecord : Type 0 where
  pub is_alarm : Bool
  pub source_type : ℕ
  pub node_id : ℕ
  pub tlv_type : ℕ
  pub content : Text

-- What the rest of the program sees of the core.
pub data Effect : Type 0 where
  written : ℕ → List ℕ → Effect
  to_monitor : List ℕ → Effect
  pushed : DbRecord → Effect
  published : Text → Text → Effect
  stored_offline : Text → Text → ℕ → Effect
  -- The calls of the heartbeat's handler, the fusion of alarms, the rules, the check for nodes that are
  -- silent, the snapshot in shared memory, and the answers to the monitor's queries.
  heartbeat : InternalMessage → Effect
  fused : InternalMessage → Effect
  ruled : InternalMessage → Effect
  checked_timeout : Effect
  published_shm : Effect
  queried : InternalMessage → Effect

-- A descriptor that is -1 is none. The effects are in their order.
pub record Core : Type 0 where
  pub engine_cmd_fd : Option ℕ
  pub access_cmd_fd : Option ℕ
  pub last_analysis_payload : Text
  pub rule_periodic_counter : ℕ
  pub ota : OtaManager
  pub effects : List Effect

-- What a write returns: bytes, an errno that says the connection is gone, or another one.
pub data Written : Type 0 where
  wrote : ℕ → Written
  gone : Written
  failed : Written

abbrev pub cmd_start_analysis : ℕ
cmd_start_analysis = 16

abbrev pub cmd_stop_analysis : ℕ
cmd_stop_analysis = 17

abbrev pub cmd_switch_model : ℕ
cmd_switch_model = 18

abbrev pub cmd_add_device : ℕ
cmd_add_device = 33

abbrev pub command : ℕ → ℕ → Text → InternalMessage
command node_id tlv_type payload = record {
  source_type = 3;
  node_id = node_id;
  tlv_type = tlv_type;
  payload = payload;
}

-- Whether it is sent, the descriptor that is left, and what was written.
unfoldable pub send_uds_cmd :
    (ℕ → List ℕ → Written) → Option ℕ → ℕ → ℕ → Text → Bool × Option ℕ × List Effect
send_uds_cmd write none node_id tlv_type payload = (false, none, [])
send_uds_cmd write (some fd) node_id tlv_type payload =
    let encoded = encode_internal_msg (command node_id tlv_type payload) in
    elim (write fd encoded) [
      | wrote n ↦ (n == length encoded, some fd, written fd (take n encoded) ∷ [])
      | gone ↦ (false, none, [])
      | failed ↦ (false, some fd, [])
    ]

abbrev pub add : List Effect → Core → Core
add effects c = record c { effects = c.effects ++ effects }

unfoldable pub send_to_engine : (ℕ → List ℕ → Written) → ℕ → Text → Core → Bool × Core
send_to_engine write tlv_type payload c =
    let (ok, fd, effects) = send_uds_cmd write c.engine_cmd_fd 0 tlv_type payload in
    (ok, add effects (record c { engine_cmd_fd = fd }))

-- A bare name becomes a path.
unfoldable pub complete_path : Text → Text
complete_path model =
    if is_empty model
    then []
    else elim (find_char model b'/' 0) [ none ↦ codes "models/" ++ model | some pos ↦ model ]

unfoldable pub analysis_payload : Text → Text → Text
analysis_payload camera model =
    let first = if is_empty camera then [] else codes "camera=" ++ (camera ++ codes " ") in
    let second = if is_empty model then [] else codes "model=" ++ model in first ++ second

unfoldable pub start_analysis : (ℕ → List ℕ → Written) → Text → Core → Text × Core
start_analysis write payload c =
    let camera = extract_json_str payload (codes "camera") in
    let model = complete_path (extract_json_str payload (codes "model")) in
    let uds_payload = analysis_payload camera model in
    let (ok, c') =
      send_to_engine write cmd_start_analysis uds_payload
        (record c { last_analysis_payload = uds_payload }) in
    ((if ok then codes "ACK" else codes "NACK: engine not connected, will retry on reconnect"), c')

unfoldable pub stop_analysis : (ℕ → List ℕ → Written) → Text → Core → Text × Core
stop_analysis write payload c =
    let camera = extract_json_str payload (codes "camera") in
    let uds_payload = if is_empty camera then [] else codes "camera=" ++ camera in
    let (ok, c') = send_to_engine write cmd_stop_analysis uds_payload c in
    if ok
    then (codes "ACK", record c' { last_analysis_payload = [] })
    else (codes "NACK: engine not connected", c')

unfoldable pub switch_model : (ℕ → List ℕ → Written) → Text → Core → Text × Core
switch_model write payload c =
    let model = extract_json_str payload (codes "model") in
    let (ok, c') = send_to_engine write cmd_switch_model (complete_path model) c in
    if is_empty model
    then (codes "NACK: missing model name", c)
    else if ok
    then (codes "ACK", c')
    else (codes "NACK: engine not connected", c')

unfoldable pub add_modbus_device : (ℕ → List ℕ → Written) → Text → Core → Text × Core
add_modbus_device write payload c =
    let (ok, fd, effects) = send_uds_cmd write c.access_cmd_fd 0 cmd_add_device payload in
    let c' = add effects (record c { access_cmd_fd = fd }) in
    if ok then (codes "ACK", c') else (codes "NACK: access not connected", c')
