-- ===== src/Modbus/Decode.antt =====
-- When the decoders of common/ModbusRtu.cpp accept a frame, and what they read out of it.
use aiot_edge_gateway.Prelude.{
  ℕ, ◌+◌, ◌-◌, ◌*◌, ◌/◌, ◌%◌, ◌≤◌, ◌<◌, ◌≡◌, ◌↔◌, refl, sym, ap, ap₂, ◌∙◌, true, false, List, [],
  ◌∷◌, ◌++◌, arith, length, take, drop, get_or, length-append, append-nil, append_assoc, ltb,
  le→ltb, get_or-append_right, All-get_or, ◌==◌, ==_refl,
}
use aiot_edge_gateway.Prelude.Bytes.{IsByte, AreBytes}
use aiot_edge_gateway.Modbus.Frames.{
  ModbusResponse, crc16_modbus, crc_wire, read_registers, decode_fields, decode_response,
  decode_tcp_response,
}
use aiot_edge_gateway.Modbus.Crc.{sealed, crc_wire-sealed}
use aiot_edge_gateway.Modbus.Registers.{
  pack_registers, AreWords, length-pack, pack-AreBytes, read-pack, pack-read,
}

-- What a device answers: its address, the function, the number of bytes and the registers.
abbrev pub answer : ℕ → ℕ → List ℕ → List ℕ
answer addr fc rs = addr ∷ fc ∷ (length rs * 2) ∷ pack_registers rs

-- The response that stands for it.
abbrev pub answered : ℕ → ℕ → List ℕ → ModbusResponse
answered addr fc rs = record {
  slave_addr = addr;
  function_code = fc;
  byte_count = length rs * 2;
  registers = rs;
}

-- The answer holds bytes, no error flag, and a number of bytes that a byte can hold.
pub record IsAnswer (addr fc : ℕ) (rs : List ℕ) : Type 0 where
  pub addr_fits : addr < 256
  pub no_error : fc < 128
  pub count_fits : length rs < 128
  pub words_fit : AreWords rs

answer-AreBytes : (addr fc : ℕ) (rs : List ℕ) → IsAnswer addr fc rs → AreBytes (answer addr fc rs)
answer-AreBytes addr fc rs v = (v.addr_fits, (omega arith, (omega arith, pack-AreBytes rs)))

-- The fields of an answer that stands behind `pre` and before `rest`.
decode_fields-answer :
    (pre rest : List ℕ) (addr fc : ℕ) (rs : List ℕ) (unit : ℕ) (resp : ModbusResponse)
    → IsAnswer addr fc rs
    → unit ≡ length pre
    → decode_fields (pre ++ (answer addr fc rs ++ rest)) unit (length rest) resp
      ≡ (true, answered addr fc rs)
unfolding decode_fields
decode_fields-answer pre rest addr fc rs unit resp v e = rw (f1, f2, f0, no_flag, fits, regs)
  where
    frame : List ℕ
    frame = pre ++ (answer addr fc rs ++ rest)

    place : (i j : ℕ) → i ≡ j → get_or frame i 0 ≡ get_or frame j 0
    place i j q = ap (λ k. get_or frame k 0) q

    f0 : get_or frame unit 0 ≡ addr
    f0 =
        place unit (length pre + 0) (omega arith)
        ∙ get_or-append_right pre (answer addr fc rs ++ rest) 0 0

    f1 : get_or frame (unit + 1) 0 ≡ fc
    f1 =
        place _ (length pre + 1) (omega arith)
        ∙ get_or-append_right pre (answer addr fc rs ++ rest) 1 0

    f2 : get_or frame (unit + 2) 0 ≡ length rs * 2
    f2 =
        place _ (length pre + 2) (omega arith)
        ∙ get_or-append_right pre (answer addr fc rs ++ rest) 2 0

    no_flag : (fc / 128 % 2 == 1) ≡ false
    no_flag = ground (arith, v.no_error)

    fits : ltb (length frame) (unit + 3 + length rs * 2 + length rest) ≡ false
    fits = le→ltb _ _ (
        omega (
          arith,
          length-append pre (answer addr fc rs ++ rest),
          length-append (pack_registers rs) rest,
          length-pack rs,
        ))

    header : List ℕ
    header = addr ∷ fc ∷ (length rs * 2) ∷ []

    count : length rs * 2 / 2 ≡ length rs
    count = omega arith

    regs : read_registers frame (length rs * 2 / 2) (unit + 3) ≡ rs
    regs =
        ap₂ (λ n l. read_registers l n (unit + 3)) count
          (sym (append_assoc pre header (pack_registers rs ++ rest)))
        ∙ read-pack rs (pre ++ header) rest (unit + 3) v.words_fit
            (omega (arith, length-append pre header))

-- The serial decoder reads an answer whose fields are in range, sealed with its checksum, back
-- exactly.
pub decode-answer :
    (addr fc : ℕ) (rs : List ℕ) (resp : ModbusResponse)
    → IsAnswer addr fc rs
    → 0 < length rs
    → decode_response (sealed (answer addr fc rs)) resp ≡ (true, answered addr fc rs)
unfolding decode_response
decode-answer addr fc rs resp v some_regs =
    rw (long_enough, crc_matches, decode_fields-answer [] trailer addr fc rs 0 resp v refl)
  where
    trailer : List ℕ
    trailer =
        (crc16_modbus (answer addr fc rs) % 256)
        ∷ (crc16_modbus (answer addr fc rs) / 256 % 256)
        ∷ []

    frame : List ℕ
    frame = sealed (answer addr fc rs)

    checks :
        (take (length frame - 2) frame ≡ answer addr fc rs)
        × (crc_wire frame ≡ crc16_modbus (answer addr fc rs))
    checks = crc_wire-sealed (answer addr fc rs) (answer-AreBytes addr fc rs v)

    long_enough : ltb (length frame) 6 ≡ false
    long_enough =
        le→ltb _ _ (omega (arith, length-append (pack_registers rs) trailer, length-pack rs))

    crc_matches : (crc16_modbus (take (length frame - 2) frame) == crc_wire frame) ≡ true
    crc_matches = rw (checks.0, checks.1, ==_refl)

-- The TCP decoder reads an answer whose fields are in range, behind the six bytes of a frame's
-- header, back exactly.
pub decode_tcp-answer :
    (header : List ℕ) (addr fc : ℕ) (rs : List ℕ) (resp : ModbusResponse)
    → length header ≡ 6
    → IsAnswer addr fc rs
    → decode_tcp_response (header ++ answer addr fc rs) resp ≡ (true, answered addr fc rs)
unfolding decode_tcp_response
decode_tcp-answer header addr fc rs resp six v = rw long_enough (
    ap (λ l. decode_fields (header ++ l) 6 0 resp) (sym (append-nil (answer addr fc rs)))
    ∙ decode_fields-answer header [] addr fc rs 6 resp v (sym six))
  where
    long_enough : ltb (length (header ++ answer addr fc rs)) 9 ≡ false
    long_enough = le→ltb _ _ (omega (arith, length-append header (answer addr fc rs)))

-- The serial decoder accepts exactly the frames of at least six bytes whose checksum is right, whose
-- function code has no error flag, and whose count of bytes fits before the checksum. It then
-- reports that many registers, and packed again they are the frame's own bytes.
pub decode_response-accepts :
    (bs : List ℕ) (resp : ModbusResponse)
    → AreBytes bs
    → let r = decode_response bs resp in
      ((r.0 ≡ true) ↔ (
        (6 ≤ length bs)
        × (crc16_modbus (take (length bs - 2) bs) ≡ crc_wire bs)
        × (get_or bs 1 0 < 128)
        × (get_or bs 2 0 + 5 ≤ length bs)))
      × (r.0 ≡ true
          → (r.1.byte_count ≡ get_or bs 2 0)
            × (pack_registers r.1.registers ≡ take (r.1.byte_count / 2 * 2) (drop 3 bs)))
unfolding decode_response decode_fields
decode_response-accepts bs resp h = ground (
  arith,
  All-get_or IsByte bs 1 0 h,
  All-get_or IsByte bs 2 0 h,
  pack-read (get_or bs 2 0 / 2) 3 bs h,
)
