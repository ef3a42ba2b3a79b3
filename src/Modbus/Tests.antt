-- ===== src/Modbus/Tests.antt =====
-- Frames of a sensor with two registers, temperature and humidity.
use aiot_edge_gateway.Prelude.{
  ℕ, ◌+◌, ◌-◌, ◌*◌, ◌/◌, ◌%◌, ◌^◌, ◌≤◌, ◌<◌, ◌≡◌, ◌↔◌, refl, true, false, none, some, List, [], ◌∷◌,
  map, arith, length, take, drop, get_or,
}
use aiot_edge_gateway.Modbus.Frames.{
  ModbusRequest, crc_bit, crc_bits, crc_bytes, crc16_modbus, crc_wire, request_body, encode_request,
  decode_response,
}
use aiot_edge_gateway.Modbus.Crc.{sealed}
use aiot_edge_gateway.Modbus.Registers.{pack_registers}
use aiot_edge_gateway.Modbus.Decode.{
  answer, answered, IsAnswer, decode-answer, decode_response-accepts,
}
use aiot_edge_gateway.Modbus.Rtu.{
  RtuDriver, Turn, sent, delivered, no_response, sensor_message, poll_turn,
}
use aiot_edge_gateway.Modbus.Suspend.{IsConsistent, answer-delivered}
use aiot_edge_gateway.Modbus.Tcp.{TcpDriver, TcpTurn, Polled, Drained, drain, poll_tcp}
use aiot_edge_gateway.Modbus.Stream.{Reply, frame, message_of, poll_tcp-stream, drain_total}

abbrev request : ModbusRequest
request = record { slave_addr = 1; function_code = 3; start_addr = 0; quantity = 10 }

-- The request of tests/test_ModbusRtu.cpp.
encode-request : encode_request request ≡ 1 ∷ 3 ∷ 0 ∷ 0 ∷ 0 ∷ 10 ∷ 0xC5 ∷ 0xCD ∷ []
unfolding encode_request request_body crc16_modbus crc_bytes crc_bits crc_bit
encode-request = refl

abbrev readings : List ℕ
readings = 251 ∷ 605 ∷ []

readings-IsAnswer : IsAnswer 1 3 readings
readings-IsAnswer = omega arith

decode-answer_example :
    decode_response (sealed (answer 1 3 readings)) no_response ≡ (true, answered 1 3 readings)
decode-answer_example = decode-answer 1 3 readings no_response readings-IsAnswer (omega arith)

abbrev garbled : List ℕ
garbled = 1 ∷ 3 ∷ 2 ∷ 0 ∷ 7 ∷ 0 ∷ 0 ∷ []

decode_response-accepts_example :
    let r = decode_response garbled no_response in
    ((r.0 ≡ true) ↔ (
      (6 ≤ length garbled)
      × (crc16_modbus (take (length garbled - 2) garbled) ≡ crc_wire garbled)
      × (get_or garbled 1 0 < 128)
      × (get_or garbled 2 0 + 5 ≤ length garbled)))
    × (r.0 ≡ true
        → (r.1.byte_count ≡ get_or garbled 2 0)
          × (pack_registers r.1.registers ≡ take (r.1.byte_count / 2 * 2) (drop 3 garbled)))
decode_response-accepts_example = decode_response-accepts garbled no_response (omega arith)

abbrev driver : RtuDriver
driver = record {
  slave_addr = 1;
  reg_start = 0;
  reg_count = 2;
  serial_open = true;
  consecutive_timeouts = 0;
  suspended = false;
  last_revival_attempt = 0;
}

driver-IsConsistent : IsConsistent driver
driver-IsConsistent = record { closed = λ e. cc; opened = λ _. refl; counted = λ _. omega arith }

abbrev silent : ℕ → Turn
silent now = record { now = now; opens = true; reply = none; later = now + 1 }

abbrev answering : Turn
answering = record { now = 1; opens = true; reply = some (sealed (answer 1 3 readings)); later = 2 }

answer-delivered_example :
    (poll_turn driver answering).1
    ≡ sent (
        encode_request (record { slave_addr = 1; function_code = 3; start_addr = 0; quantity = 2 }))
      ∷ delivered (sensor_message 1 (answered 1 3 readings))
      ∷ []
answer-delivered_example =
    (answer-delivered driver answering 3 readings driver-IsConsistent (λ e. cc) readings-IsAnswer
      (omega arith) refl).0

abbrev reply : Reply
reply = record { trans = 258; unit = 1; function = 3; registers = readings }

abbrev tcp : TcpDriver
tcp = record {
  slave_addr = 1;
  reg_start = 0;
  reg_count = 2;
  trans_id = 65535;
  recv_buf = take 5 (frame reply);
}

abbrev second_half : TcpTurn
second_half = record { written = true; received = some (drop 5 (frame reply)) }

poll_tcp-stream_example :
    (out : Polled) × (poll_tcp tcp second_half ≡ some out)
    × (out.messages ≡ map (message_of 1) (reply ∷ []))
    × (out.driver ≡ record tcp { trans_id = (65535 + 1) % 2 ^ 16; recv_buf = [] })
    × (out.reconnects ≡ false)
unfolding pack_registers
poll_tcp-stream_example =
    poll_tcp-stream tcp second_half (drop 5 (frame reply)) [] (reply ∷ []) refl refl refl
      (omega arith) (omega arith) (omega arith)

-- A frame that claims to be empty, and bytes that are none.
drain_total_example : (out : Drained) × (drain 1 (0 ∷ 0 ∷ 0 ∷ 0 ∷ 0 ∷ 0 ∷ 9 ∷ 9 ∷ []) ≡ some out)
drain_total_example = drain_total 1 (0 ∷ 0 ∷ 0 ∷ 0 ∷ 0 ∷ 0 ∷ 9 ∷ 9 ∷ [])
