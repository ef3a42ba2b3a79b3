-- ===== src/Engines/Laws.antt =====
-- What a heartbeat and a check for time-outs do to the engines that are known
-- (gateway_core/EngineManager.cpp, lines 8-45 and 65-84).
use aiot_edge_gateway.Prelude.{
  ℕ, ◌+◌, ◌-◌, ◌/◌, Bool, false, not, ◌&&◌, ◌||◌, ◌==◌, ltb, List, ◌≤◌, ◌≡◌, ◌≢◌, refl, some, [],
  ◌∷◌, length, take, drop, arith, le→ltb,
}
use aiot_edge_gateway.Wire.Codec.{InternalMessage}
use aiot_edge_gateway.Engines.Manager.{
  HeartbeatInfo, Heartbeats, heartbeat_timeout_ms, lookup, assign, on_heartbeat, check_timeout,
  seconds_since_last_heartbeat, online_count,
}

lookup-assign_self :
    (hs : Heartbeats) (k : ℕ) (v : HeartbeatInfo) → lookup (assign hs k v) k ≡ some v
lookup-assign_self [] k v = ground arith
lookup-assign_self ((n, i) ∷ hs) k v = ground (arith, lookup-assign_self hs k v)

lookup-assign_ne :
    (hs : Heartbeats) (k j : ℕ) (v : HeartbeatInfo) → j ≢ k → lookup (assign hs k v) j ≡ lookup hs j
lookup-assign_ne [] k j v d = ground arith
lookup-assign_ne ((n, i) ∷ hs) k j v d = ground (arith, lookup-assign_ne hs k j v d)

seconds-lookup :
    (later : ℕ) (hs : Heartbeats) (j : ℕ) (info : HeartbeatInfo)
    → lookup hs j ≡ some info
    → seconds_since_last_heartbeat later hs j ≡ some ((later - info.last_beat) / 1000)
unfolding seconds_since_last_heartbeat
seconds-lookup later hs j info e = rw (seconds_since_last_heartbeat, e) refl

seconds-same :
    (later : ℕ) (hs hs' : Heartbeats) (j : ℕ)
    → lookup hs j ≡ lookup hs' j
    → seconds_since_last_heartbeat later hs j ≡ seconds_since_last_heartbeat later hs' j
unfolding seconds_since_last_heartbeat
seconds-same later hs hs' j e = rw (seconds_since_last_heartbeat, e) refl

-- A heartbeat of eight bytes or more sets the age of its own node to the time since, in seconds, and
-- leaves that of every other node.
pub on_heartbeat_lem :
    (now later : ℕ) (msg : InternalMessage) (hs : Heartbeats) (other : ℕ)
    → 8 ≤ length msg.payload
    → other ≢ msg.node_id
    → (let hs' = on_heartbeat now msg hs in
        (seconds_since_last_heartbeat later hs' msg.node_id ≡ some ((later - now) / 1000))
        × (seconds_since_last_heartbeat later hs' other
            ≡ seconds_since_last_heartbeat later hs other))
unfolding on_heartbeat
on_heartbeat_lem now later msg hs other l d =
    rw (on_heartbeat, le→ltb (length msg.payload) 8 l)
      (
        seconds-lookup later (assign hs msg.node_id beat) msg.node_id beat
            (lookup-assign_self hs msg.node_id beat),
        seconds-same later (assign hs msg.node_id beat) hs other
            (lookup-assign_ne hs msg.node_id other beat d),
      )
  where
    beat : HeartbeatInfo
    beat = record {
      last_beat = now;
      fps = take 4 msg.payload;
      npu_temp = take 4 (drop 4 msg.payload);
    }

-- Whether one of the engines, or of the reports, is the node's.
abbrev pub reports : ℕ → List ℕ → Bool
reports node_id [] = false
reports node_id (n ∷ ns) = (n == node_id) || reports node_id ns

-- Whether the map has an entry of the node that the test accepts.
abbrev pub has_entry : (HeartbeatInfo → Bool) → ℕ → Heartbeats → Bool
has_entry test node_id [] = false
has_entry test node_id ((n, info) ∷ hs) = ((n == node_id) && test info) || has_entry test node_id hs

-- More than 30 seconds since the last heartbeat, and more than 60.
abbrev pub is_late : ℕ → HeartbeatInfo → Bool
is_late now info = ltb heartbeat_timeout_ms (now - info.last_beat)

abbrev pub is_gone : ℕ → HeartbeatInfo → Bool
is_gone now info = ltb (heartbeat_timeout_ms + heartbeat_timeout_ms) (now - info.last_beat)

-- A check reports exactly the nodes whose last heartbeat is more than 30 and at most 60 seconds ago,
-- forgets exactly those for which it is more than 60 seconds, and keeps the others, reported or not,
-- with what is known of them, as any test tells. The count of engines online stays.
pub check_timeout_lem :
    (now node_id : ℕ) (test : HeartbeatInfo → Bool) (hs : Heartbeats)
    → (let (timed_out, kept) = check_timeout now hs in
        (reports node_id timed_out
          ≡ has_entry (λ info. is_late now info && not (is_gone now info)) node_id hs)
        × (has_entry test node_id kept
            ≡ has_entry (λ info. not (is_gone now info) && test info) node_id hs)
        × (online_count now kept ≡ online_count now hs))
unfolding check_timeout online_count
check_timeout_lem now node_id test [] = (refl, refl, refl)
check_timeout_lem now node_id test ((n, i) ∷ hs) =
    let (r, k, c) = check_timeout_lem now node_id test hs in
    (grind (arith, r), grind (arith, k), grind (arith, c))
