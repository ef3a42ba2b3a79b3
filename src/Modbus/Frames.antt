-- ===== src/Modbus/Frames.antt =====
-- The functions of common/ModbusRtu.cpp. `(hi << 8) | lo` of two bytes is the sum of disjoint bits.
use aiot_edge_gateway.Prelude.{
  ℕ, zero, suc, ◌+◌, ◌-◌, ◌*◌, ◌/◌, ◌%◌, bit_xor, Bool, true, false, List, [], ◌∷◌, ◌++◌, ltb, ◌==◌,
  not, if◌then◌else◌, length, get_or, take,
}
use aiot_edge_gateway.Prelude.Bytes.{be16}

pub record ModbusRequest : Type 0 where
  pub slave_addr : ℕ
  pub function_code : ℕ
  pub start_addr : ℕ
  pub quantity : ℕ

pub record ModbusResponse : Type 0 where
  pub slave_addr : ℕ
  pub function_code : ℕ
  pub byte_count : ℕ
  pub registers : List ℕ

-- One round of the inner loop of `crc16_modbus`, and the eight of them.
unfoldable pub crc_bit : ℕ → ℕ
crc_bit crc = if crc % 2 == 1 then bit_xor (crc / 2) 0xA001 else crc / 2

unfoldable pub crc_bits : ℕ → ℕ → ℕ
crc_bits zero crc = crc
crc_bits (suc j) crc = crc_bits j (crc_bit crc)

unfoldable pub crc_bytes : ℕ → List ℕ → ℕ
crc_bytes crc [] = crc
crc_bytes crc (b ∷ bs) = crc_bytes (crc_bits 8 (bit_xor crc b)) bs

unfoldable pub crc16_modbus : List ℕ → ℕ
crc16_modbus bs = crc_bytes 0xFFFF bs

-- The six bytes that `encode_request` fills before the checksum. The function code is the macro's,
-- whatever the request says.
unfoldable pub request_body : ModbusRequest → List ℕ
request_body req = req.slave_addr ∷ 3 ∷ (be16 req.start_addr ++ be16 req.quantity)

unfoldable pub encode_request : ModbusRequest → List ℕ
encode_request req =
    let crc = crc16_modbus (request_body req) in
    request_body req ++ ((crc % 256) ∷ (crc / 256 % 256) ∷ [])

-- `registers[i] = (data[off + 2 i] << 8) | data[off + 2 i + 1]` for the `n` registers from `off` on.
unfoldable pub read_registers : List ℕ → ℕ → ℕ → List ℕ
read_registers bs zero off = []
read_registers bs (suc n) off =
    (get_or bs off 0 * 256 + get_or bs (off + 1) 0) ∷ read_registers bs n (off + 2)

-- What both decoders do with the fields from `unit` on, once the frame is long enough: the
-- response is written field by field, also where the frame turns out to be refused.
unfoldable pub decode_fields : List ℕ → ℕ → ℕ → ModbusResponse → Bool × ModbusResponse
decode_fields bs unit trailer resp =
    let addressed : ModbusResponse = record resp {
      slave_addr = get_or bs unit 0;
      function_code = get_or bs (unit + 1) 0;
    } in
    let byte_count = get_or bs (unit + 2) 0 in
    if get_or bs (unit + 1) 0 / 128 % 2 == 1
    then (false, addressed)
    else (if ltb (length bs) (unit + 3 + byte_count + trailer) then (false, addressed) else (
      true,
      record addressed {
        byte_count = byte_count;
        registers = read_registers bs (byte_count / 2) (unit + 3);
      },
    ))

-- The checksum that a serial frame carries in its last two bytes, low byte first.
unfoldable pub crc_wire : List ℕ → ℕ
crc_wire bs = get_or bs (length bs - 2) 0 + get_or bs (length bs - 1) 0 * 256

unfoldable pub decode_response : List ℕ → ModbusResponse → Bool × ModbusResponse
decode_response bs resp =
    if ltb (length bs) 6
    then (false, resp)
    else (if not (crc16_modbus (take (length bs - 2) bs) == crc_wire bs)
        then (false, resp)
        else decode_fields bs 0 2 resp)

unfoldable pub encode_tcp_request : ℕ → ModbusRequest → List ℕ
encode_tcp_request trans_id req =
    be16 trans_id
    ++ (0
        ∷ 0
        ∷ 0
        ∷ 6
        ∷ req.slave_addr
        ∷ req.function_code
        ∷ (be16 req.start_addr ++ be16 req.quantity))

unfoldable pub decode_tcp_response : List ℕ → ModbusResponse → Bool × ModbusResponse
decode_tcp_response bs resp = if ltb (length bs) 9 then (false, resp) else decode_fields bs 6 0 resp
