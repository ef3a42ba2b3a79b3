-- ===== src/Modbus/Crc.antt =====
-- The checksum of common/ModbusRtu.cpp is a 16-bit word, and a frame ends in the one of its body.
use aiot_edge_gateway.Prelude.{
  ℕ, zero, suc, ◌+◌, ◌-◌, ◌/◌, ◌%◌, ◌^◌, ◌<◌, ◌≡◌, refl, ap, List, [], ◌∷◌, ◌++◌, arith, length,
  take, get_or, length-append, take-append, get_or-append_right,
}
use aiot_edge_gateway.Prelude.Bits.{bit_xor-lt}
use aiot_edge_gateway.Prelude.Bytes.{AreBytes}
use aiot_edge_gateway.Modbus.Frames.{crc_bit, crc_bits, crc_bytes, crc16_modbus, crc_wire}

crc_bit-lt : (crc : ℕ) → crc < 2 ^ 16 → crc_bit crc < 2 ^ 16
unfolding crc_bit
crc_bit-lt crc h = ground (arith, bit_xor-lt 16 (crc / 2) 0xA001 (omega arith) (omega arith))

crc_bits-lt : (j crc : ℕ) → crc < 2 ^ 16 → crc_bits j crc < 2 ^ 16
unfolding crc_bits
crc_bits-lt zero crc h = h
crc_bits-lt (suc j) crc h = crc_bits-lt j (crc_bit crc) (crc_bit-lt crc h)

crc_bytes-lt : (bs : List ℕ) (crc : ℕ) → AreBytes bs → crc < 2 ^ 16 → crc_bytes crc bs < 2 ^ 16
unfolding crc_bytes
crc_bytes-lt [] crc hb h = h
crc_bytes-lt (b ∷ bs) crc hb h =
    crc_bytes-lt bs _ hb.1 (crc_bits-lt 8 _ (bit_xor-lt 16 crc b h (omega arith)))

pub crc16-lt : (bs : List ℕ) → AreBytes bs → crc16_modbus bs < 2 ^ 16
unfolding crc16_modbus
crc16-lt bs h = crc_bytes-lt bs 0xFFFF h (omega arith)

-- A body with its checksum behind it, low byte first.
abbrev pub sealed : List ℕ → List ℕ
sealed body = body ++ ((crc16_modbus body % 256) ∷ (crc16_modbus body / 256 % 256) ∷ [])

-- The receiver's check accepts what the sender sealed.
pub crc_wire-sealed :
    (body : List ℕ)
    → AreBytes body
    → (take (length (sealed body) - 2) (sealed body) ≡ body)
      × (crc_wire (sealed body) ≡ crc16_modbus body)
unfolding crc_wire
crc_wire-sealed body h = (
  rw size (take-append (length body) body _ refl),
  ground (
    arith,
    size,
    length-append body (low ∷ high ∷ []),
    get_or-append_right body (low ∷ high ∷ []) 0 0,
    get_or-append_right body (low ∷ high ∷ []) 1 0,
    same_place (length (sealed body) - 2) (length body + 0),
    same_place (length (sealed body) - 1) (length body + 1),
    crc16-lt body h,
  ),
)
  where
    low : ℕ
    low = crc16_modbus body % 256

    high : ℕ
    high = crc16_modbus body / 256 % 256

    size : length (sealed body) - 2 ≡ length body
    size = omega (arith, length-append body (low ∷ high ∷ []))

    same_place : (i j : ℕ) → i ≡ j → get_or (sealed body) i 0 ≡ get_or (sealed body) j 0
    same_place i j e = ap (λ k. get_or (sealed body) k 0) e
