-- ===== src/Modbus/Rtu.antt =====
-- The polling thread of gateway_access/ModbusRtuDriver.cpp: a slave that misses three answers in a
-- row is suspended, and tried again after thirty seconds. The clock and the serial port are the
-- round's inputs; times are whole seconds of the steady clock.
use aiot_edge_gateway.Prelude.{
  ℕ, ◌+◌, ◌-◌, Bool, true, false, Option, none, some, List, [], ◌∷◌, ltb, if◌then◌else◌,
}
use aiot_edge_gateway.Wire.Codec.{InternalMessage}
use aiot_edge_gateway.Modbus.Frames.{ModbusResponse, encode_request, decode_response}
use aiot_edge_gateway.Modbus.Registers.{pack_registers}

pub record RtuDriver : Type 0 where
  pub slave_addr : ℕ
  pub reg_start : ℕ
  pub reg_count : ℕ
  pub serial_open : Bool
  pub consecutive_timeouts : ℕ
  pub suspended : Bool
  pub last_revival_attempt : ℕ

-- What one turn of the loop meets: the time, whether the port can be opened again, the bytes that
-- `read` gave (`none` for a timeout or an error), and the time after that.
pub record Turn : Type 0 where
  pub now : ℕ
  pub opens : Bool
  pub reply : Option (List ℕ)
  pub later : ℕ

-- What it does to the outside: a frame written to the port, a message handed to the callback.
pub data Effect : Type 0 where
  sent : List ℕ → Effect
  delivered : InternalMessage → Effect

abbrev pub max_timeouts : ℕ
max_timeouts = 3

abbrev pub revival_interval : ℕ
revival_interval = 30

-- A response before anything is decoded into it.
abbrev pub no_response : ModbusResponse
no_response = record { slave_addr = 0; function_code = 0; byte_count = 0; registers = [] }

abbrev pub sensor_message : ℕ → ModbusResponse → InternalMessage
sensor_message addr resp = record {
  source_type = 0;
  node_id = addr;
  tlv_type = 1;
  payload = pack_registers resp.registers;
}

-- The branch of a timeout or of a frame that does not decode.
unfoldable pub miss : RtuDriver → Turn → RtuDriver
miss d t =
    if ltb (d.consecutive_timeouts + 1) max_timeouts
    then record d { consecutive_timeouts = d.consecutive_timeouts + 1 }
    else record d {
      consecutive_timeouts = d.consecutive_timeouts + 1;
      suspended = true;
      last_revival_attempt = t.later;
      serial_open = false;
    }

-- Request, answer and what follows from it.
unfoldable pub transact : RtuDriver → Turn → RtuDriver × List Effect
transact d t =
    let request = sent (
      encode_request (record {
        slave_addr = d.slave_addr;
        function_code = 3;
        start_addr = d.reg_start;
        quantity = d.reg_count;
      })) in
    elim t.reply [
      | none ↦ (miss d t, request ∷ [])
      | some bytes ↦
          let (ok, resp) = decode_response bytes no_response in
          if ok
          then (
            record d { consecutive_timeouts = 0 },
            request ∷ delivered (sensor_message d.slave_addr resp) ∷ [],
          )
          else (miss d t, request ∷ [])
    ]

-- One turn of `poll_loop`.
unfoldable pub poll_turn : RtuDriver → Turn → RtuDriver × List Effect
poll_turn d t =
    if d.suspended
    then (if ltb (t.now - d.last_revival_attempt) revival_interval
        then (d, [])
        else (if t.opens
            then transact
                (record d { serial_open = true; suspended = false; consecutive_timeouts = 0 }) t
            else (record d { last_revival_attempt = t.now }, [])))
    else transact d t

unfoldable pub poll_turns : RtuDriver → List Turn → RtuDriver
poll_turns d [] = d
poll_turns d (t ∷ ts) = poll_turns (poll_turn d t).0 ts
