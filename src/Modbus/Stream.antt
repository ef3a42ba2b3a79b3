-- ===== src/Modbus/Stream.antt =====
-- However the stream is cut, the TCP driver finds the frames in it.
use aiot_edge_gateway.Prelude.{
  ℕ, zero, suc, ◌+◌, ◌*◌, ◌/◌, ◌%◌, ◌^◌, ◌≤◌, ◌<◌, ◌≡◌, ◌⊎◌, inl, inr, refl, ap, ◌∙◌, true, false,
  none, some, List, [], ◌∷◌, ◌++◌, map, arith, length, take, drop, get_or, length-append,
  take-append, drop-append, All, le→ltb, length-drop, Option-cases, ◌≢◌,
}
use aiot_edge_gateway.Wire.Codec.{InternalMessage}
use aiot_edge_gateway.Modbus.Frames.{decode_tcp_response}
use aiot_edge_gateway.Modbus.Registers.{pack_registers, length-pack}
use aiot_edge_gateway.Modbus.Decode.{answer, answered, IsAnswer, decode_tcp-answer}
use aiot_edge_gateway.Modbus.Rtu.{no_response, sensor_message}
use aiot_edge_gateway.Modbus.Tcp.{
  Drained, drain_loop, drain, TcpDriver, TcpTurn, Polled, max_recv_buf, poll_tcp,
}

-- An answer of a device, with the transaction number it echoes.
pub record Reply : Type 0 where
  pub trans : ℕ
  pub unit : ℕ
  pub function : ℕ
  pub registers : List ℕ

-- The reply as a frame: transaction, protocol, length of what follows, and the answer.
abbrev pub frame : Reply → List ℕ
frame r =
    (r.trans / 256 % 256)
    ∷ (r.trans % 256)
    ∷ 0
    ∷ 0
    ∷ ((3 + length r.registers * 2) / 256)
    ∷ ((3 + length r.registers * 2) % 256)
    ∷ answer r.unit r.function r.registers

-- Its registers fit the frame, whose length field is at most 256.
abbrev pub IsReply : Reply → Type 0
IsReply r = IsAnswer r.unit r.function r.registers × (length r.registers ≤ 126)

abbrev pub message_of : ℕ → Reply → InternalMessage
message_of addr r = sensor_message addr (answered r.unit r.function r.registers)

abbrev pub stream : List Reply → List ℕ → List ℕ
stream [] rest = rest
stream (r ∷ rs) rest = frame r ++ stream rs rest

-- The start of a frame that has not arrived whole.
abbrev pub IsPartial : List ℕ → Type 0
IsPartial bs =
    (length bs < 6)
    ⊎ ((1 ≤ get_or bs 4 0 * 256 + get_or bs 5 0)
        × (get_or bs 4 0 * 256 + get_or bs 5 0 ≤ 256)
        × (length bs < 6 + (get_or bs 4 0 * 256 + get_or bs 5 0)))

drain_loop-partial :
    (fuel addr : ℕ) (rest : List ℕ)
    → IsPartial rest
    → drain_loop (suc fuel) addr rest
      ≡ some (record { messages = []; left = rest; reconnects = false })
unfolding drain_loop
drain_loop-partial fuel addr rest h = ground arith

-- One round on a buffer that begins with a whole frame.
drain_loop-frame :
    (fuel addr : ℕ) (r : Reply) (rest : List ℕ) (out : Drained)
    → IsReply r
    → drain_loop fuel addr rest ≡ some out
    → drain_loop (suc fuel) addr (frame r ++ rest)
      ≡ some (record out { messages = message_of addr r ∷ out.messages })
unfolding drain_loop
drain_loop-frame fuel addr r rest out v e = ground (
  arith,
  e',
  whole,
  decoded,
  length-append (pack_registers r.registers) rest,
  length-pack r.registers,
)
  where
    count : ℕ
    count = 3 + length r.registers * 2

    mbap_len : ℕ
    mbap_len = count / 256 * 256 + count % 256

    size : 6 + mbap_len ≡ length (frame r)
    size = omega (arith, length-pack r.registers)

    whole : take (6 + mbap_len) (frame r ++ rest) ≡ frame r
    whole = take-append (6 + mbap_len) (frame r) rest size

    e' : drain_loop fuel addr (drop (6 + mbap_len) (frame r ++ rest)) ≡ some out
    e' = ap (drain_loop fuel addr) (drop-append (6 + mbap_len) (frame r) rest size) ∙ e

    decoded :
        decode_tcp_response (frame r) no_response ≡ (true, answered r.unit r.function r.registers)
    decoded =
        decode_tcp-answer
          ((r.trans / 256 % 256) ∷ (r.trans % 256) ∷ 0 ∷ 0 ∷ (count / 256) ∷ (count % 256) ∷ [])
          r.unit r.function r.registers no_response refl v.0

drain_loop-stream :
    (rs : List Reply) (fuel addr : ℕ) (rest : List ℕ)
    → All IsReply rs
    → IsPartial rest
    → length rs < fuel
    → drain_loop fuel addr (stream rs rest)
      ≡ some (record { messages = map (message_of addr) rs; left = rest; reconnects = false })
drain_loop-stream rs zero addr rest v p h = elim h [ ]
drain_loop-stream [] (suc fuel) addr rest v p h = drain_loop-partial fuel addr rest p
drain_loop-stream (r ∷ rs) (suc fuel) addr rest v p h =
    drain_loop-frame fuel addr r (stream rs rest) _ v.0
      (drain_loop-stream rs fuel addr rest v.1 p (omega arith))

length-stream : (rs : List Reply) (rest : List ℕ) → length rs ≤ length (stream rs rest)
length-stream [] rest = omega arith
length-stream (r ∷ rs) rest =
    omega
      (arith, length-append (pack_registers r.registers) (stream rs rest), length-stream rs rest)

-- A buffer that holds whole replies and then the start of another gives exactly their messages, in
-- order, and keeps the start for the next turn; the driver does not reconnect.
pub drain-stream :
    (rs : List Reply) (addr : ℕ) (rest : List ℕ)
    → All IsReply rs
    → IsPartial rest
    → drain addr (stream rs rest)
      ≡ some (record { messages = map (message_of addr) rs; left = rest; reconnects = false })
unfolding drain
drain-stream rs addr rest v p =
    drain_loop-stream rs (suc (length (stream rs rest))) addr rest v p
      (omega (arith, length-stream rs rest))

drain_loop-ne-none :
    (fuel addr : ℕ) (buf : List ℕ) → length buf < fuel → drain_loop fuel addr buf ≢ none
unfolding drain_loop
drain_loop-ne-none zero addr buf h = elim h [ ]
drain_loop-ne-none (suc fuel) addr buf h =
    let frame_len = 6 + (get_or buf 4 0 * 256 + get_or buf 5 0) in
    ground (arith, drain_loop-ne-none fuel addr (drop frame_len buf), length-drop frame_len buf)

-- The loop over the frames ends by its own test, whatever bytes the buffer has: it has a result.
pub drain_total : (addr : ℕ) (buf : List ℕ) → (out : Drained) × (drain addr buf ≡ some out)
unfolding drain
drain_total addr buf = elim (Option-cases (drain_loop (suc (length buf)) addr buf)) [
  | inl e ↦ absurd (drain_loop-ne-none (suc (length buf)) addr buf (omega arith) e)
  | inr found ↦ found
]

-- A turn of the TCP driver that writes its request and reads on to a buffer of whole replies and the
-- start of another delivers their messages, keeps the start, and moves the transaction number on.
pub poll_tcp-stream :
    (d : TcpDriver) (t : TcpTurn) (bytes rest : List ℕ) (rs : List Reply)
    → t.written ≡ true
    → t.received ≡ some bytes
    → d.recv_buf ++ bytes ≡ stream rs rest
    → length (stream rs rest) ≤ max_recv_buf
    → All IsReply rs
    → IsPartial rest
    → (out : Polled) × (poll_tcp d t ≡ some out)
      × (out.messages ≡ map (message_of d.slave_addr) rs)
      × (out.driver ≡ record d { trans_id = (d.trans_id + 1) % 2 ^ 16; recv_buf = rest })
      × (out.reconnects ≡ false)
unfolding poll_tcp
poll_tcp-stream d t bytes rest rs w r e small v p =
    simp (w, r, e, le→ltb _ _ small, drain-stream rs d.slave_addr rest v p)
      (_, refl, refl, refl, refl)
