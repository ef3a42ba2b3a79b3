-- ===== src/Modbus/Suspend.antt =====
-- When the serial driver suspends a slave and what it does for one that answers.
use aiot_edge_gateway.Prelude.{
  ℕ, ◌-◌, ◌≤◌, ◌<◌, ◌≡◌, refl, true, false, Option, none, some, List, [], ◌∷◌, arith, length, ap,
  ◌∙◌,
}
use aiot_edge_gateway.Modbus.Frames.{ModbusResponse, encode_request, decode_response}
use aiot_edge_gateway.Modbus.Crc.{sealed}
use aiot_edge_gateway.Modbus.Decode.{answer, answered, IsAnswer, decode-answer}
use aiot_edge_gateway.Modbus.Rtu.{
  RtuDriver, Turn, sent, delivered, max_timeouts, no_response, revival_interval, sensor_message,
  miss, transact, poll_turn, poll_turns,
}

-- A suspended slave's port is closed; any other's is open, and it has missed fewer than three
-- answers in a row.
pub record IsConsistent (d : RtuDriver) : Type 0 where
  pub closed : d.suspended ≡ true → d.serial_open ≡ false
  pub opened : d.suspended ≡ false → d.serial_open ≡ true
  pub counted : d.suspended ≡ false → d.consecutive_timeouts < max_timeouts

transact-IsConsistent :
    (d : RtuDriver) (t : Turn)
    → d.suspended ≡ false
    → IsConsistent d
    → IsConsistent (transact d t).0
unfolding transact miss
transact-IsConsistent d t a v = ground (arith, v.closed, v.opened a, v.counted a)

-- A turn, whatever the clock, the port and the slave do, keeps a driver consistent: its port is
-- closed exactly while it is suspended, and while it is not it has missed fewer than three answers.
pub poll_turn-IsConsistent :
    (d : RtuDriver) (t : Turn) → IsConsistent d → IsConsistent (poll_turn d t).0
unfolding poll_turn
poll_turn-IsConsistent d t v = ground (
  arith,
  transact-IsConsistent d t,
  transact-IsConsistent
      (record d { serial_open = true; suspended = false; consecutive_timeouts = 0 }) t,
)

-- The turn brings no answer that decodes.
abbrev pub Misses : Turn → Type 0
Misses t =
    (bytes : List ℕ) (resp : ModbusResponse)
    → t.reply ≡ some bytes
    → (decode_response bytes resp).0 ≡ false

-- Such a turn counts one miss on a slave that is polled.
poll_turn-miss :
    (d : RtuDriver) (t : Turn) → d.suspended ≡ false → Misses t → (poll_turn d t).0 ≡ miss d t
unfolding poll_turn transact
poll_turn-miss d t active m = simp active (by_reply t.reply refl)
  where
    by_reply : (o : Option (List ℕ)) → t.reply ≡ o → (transact d t).0 ≡ miss d t
    by_reply none e = rw e
    by_reply (some bytes) e = rw (e, m bytes no_response e)

-- Three turns in a row without an answer suspend a slave that was polled, and not before its third
-- miss in a row; then its port is closed.
pub Misses-suspend :
    (d : RtuDriver) (a b c : Turn)
    → IsConsistent d
    → d.suspended ≡ false
    → d.consecutive_timeouts ≡ 0
    → Misses a
    → Misses b
    → Misses c
    → ((poll_turns d (a ∷ b ∷ [])).suspended ≡ false)
      × ((poll_turns d (a ∷ b ∷ c ∷ [])).suspended ≡ true)
      × ((poll_turns d (a ∷ b ∷ c ∷ [])).serial_open ≡ false)
      × ((poll_turns d (a ∷ b ∷ c ∷ [])).last_revival_attempt ≡ c.later)
unfolding poll_turns miss
Misses-suspend d a b c v active zero_missed ma mb mc = ground (
  arith,
  ap (λ e. (poll_turn e b).0) first ∙ second,
  ap (λ e. (poll_turn (poll_turn e b).0 c).0) first ∙ (ap (λ e. (poll_turn e c).0) second ∙ third),
)
  where
    first : (poll_turn d a).0 ≡ miss d a
    first = poll_turn-miss d a active ma

    second : (poll_turn (miss d a) b).0 ≡ miss (miss d a) b
    second = poll_turn-miss (miss d a) b (ground (arith)) mb

    third : (poll_turn (miss (miss d a) b) c).0 ≡ miss (miss (miss d a) b) c
    third = poll_turn-miss (miss (miss d a) b) c (ground (arith)) mc

-- A slave that is polled, or whose thirty seconds are over and whose port opens, and that answers a
-- frame with registers, has exactly their bytes delivered under its address, and its count of
-- misses starts again.
pub answer-delivered :
    (d : RtuDriver) (t : Turn) (fc : ℕ) (rs : List ℕ)
    → IsConsistent d
    → (d.suspended ≡ true → (revival_interval ≤ t.now - d.last_revival_attempt) × (t.opens ≡ true))
    → IsAnswer d.slave_addr fc rs
    → 0 < length rs
    → t.reply ≡ some (sealed (answer d.slave_addr fc rs))
    → let (d', effects) = poll_turn d t in
      (effects
        ≡ sent (
            encode_request (record {
              slave_addr = d.slave_addr;
              function_code = 3;
              start_addr = d.reg_start;
              quantity = d.reg_count;
            }))
          ∷ delivered (sensor_message d.slave_addr (answered d.slave_addr fc rs))
          ∷ [])
      × (d'.suspended ≡ false)
      × (d'.consecutive_timeouts ≡ 0)
unfolding poll_turn transact
answer-delivered d t fc rs v ready a some_regs e =
    rw (e, transact, decode-answer d.slave_addr fc rs no_response a some_regs)
      (ground (arith, ready))
