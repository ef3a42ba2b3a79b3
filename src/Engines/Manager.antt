-- ===== src/Engines/Manager.antt =====
-- The class `EngineManager` (gateway_core/EngineManager.{h,cpp}): which engines beat. Times are in
-- milliseconds; a float is the four bytes it is copied from.
use aiot_edge_gateway.Prelude.{
  ℕ, ◌+◌, ◌-◌, ◌/◌, Option, none, some, List, [], ◌∷◌, length, take, drop, ltb, leb, ◌==◌,
  if◌then◌else◌,
}
use aiot_edge_gateway.Wire.Codec.{InternalMessage}

pub record HeartbeatInfo : Type 0 where
  pub last_beat : ℕ
  pub fps : List ℕ
  pub npu_temp : List ℕ

-- `std::unordered_map<int32_t, HeartbeatInfo>`, in some order.
abbrev pub Heartbeats : Type 0
Heartbeats = List (ℕ × HeartbeatInfo)

-- `HEARTBEAT_TIMEOUT_MS`
abbrev pub heartbeat_timeout_ms : ℕ
heartbeat_timeout_ms = 30000

abbrev pub lookup : Heartbeats → ℕ → Option HeartbeatInfo
lookup [] k = none
lookup ((node_id, info) ∷ hs) k = if node_id == k then some info else lookup hs k

-- `heartbeats_[k] = v`
abbrev pub assign : Heartbeats → ℕ → HeartbeatInfo → Heartbeats
assign [] k v = (k, v) ∷ []
assign ((node_id, info) ∷ hs) k v =
    if node_id == k then (k, v) ∷ hs else (node_id, info) ∷ assign hs k v

unfoldable pub on_heartbeat : ℕ → InternalMessage → Heartbeats → Heartbeats
on_heartbeat now msg hs =
    if ltb (length msg.payload) 8
    then hs
    else assign hs msg.node_id (record {
      last_beat = now;
      fps = take 4 msg.payload;
      npu_temp = take 4 (drop 4 msg.payload);
    })

-- The nodes that timed out, and the map without those that did so long ago.
unfoldable pub check_timeout : ℕ → Heartbeats → List ℕ × Heartbeats
check_timeout now [] = ([], [])
check_timeout now ((node_id, info) ∷ hs) =
    let (timed_out, kept) = check_timeout now hs in
    if ltb (heartbeat_timeout_ms + heartbeat_timeout_ms) (now - info.last_beat)
    then (timed_out, kept)
    else (if ltb heartbeat_timeout_ms (now - info.last_beat)
        then (node_id ∷ timed_out, (node_id, info) ∷ kept)
        else (timed_out, (node_id, info) ∷ kept))

-- `none` is the result -1.
unfoldable pub seconds_since_last_heartbeat : ℕ → Heartbeats → ℕ → Option ℕ
seconds_since_last_heartbeat now hs node_id = elim (lookup hs node_id) [
  | none ↦ none
  | some info ↦ some ((now - info.last_beat) / 1000)
]

unfoldable pub online_count : ℕ → Heartbeats → ℕ
online_count now [] = 0
online_count now ((node_id, info) ∷ hs) =
    let count = online_count now hs in
    if leb (now - info.last_beat) heartbeat_timeout_ms then count + 1 else count
