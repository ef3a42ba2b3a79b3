-- ===== src/Modbus/Tcp.antt =====
-- The receiving side of gateway_access/ModbusTcpDriver.cpp: the frames are cut out of the byte
-- stream by the length field of their header. The socket is the turn's input.
use aiot_edge_gateway.Prelude.{
  ℕ, zero, suc, ◌+◌, ◌*◌, ◌%◌, ◌^◌, Bool, true, false, ◌||◌, Option, none, some, List, [], ◌∷◌,
  ◌++◌, ltb, if◌then◌else◌, length, take, drop, get_or,
}
use aiot_edge_gateway.Wire.Codec.{InternalMessage}
use aiot_edge_gateway.Modbus.Frames.{ModbusResponse, encode_tcp_request, decode_tcp_response}
use aiot_edge_gateway.Modbus.Rtu.{no_response, sensor_message}

-- What one pass over the receive buffer does: the messages for the callback, the bytes left in the
-- buffer, and whether the driver connects anew.
pub record Drained : Type 0 where
  pub messages : List InternalMessage
  pub left : List ℕ
  pub reconnects : Bool

-- The message of a frame that decodes goes before those of the frames behind it.
abbrev pub with_message : Bool × ModbusResponse → ℕ → Drained → Drained
with_message (true, resp) addr r = record r { messages = sensor_message addr resp ∷ r.messages }
with_message (false, resp) addr r = r

-- The loop `while (recv_buf_.size() >= 6)` on fuel, `none` when the fuel is spent.
unfoldable pub drain_loop : ℕ → ℕ → List ℕ → Option Drained
drain_loop zero addr buf = none
drain_loop (suc fuel) addr buf =
    let mbap_len = get_or buf 4 0 * 256 + get_or buf 5 0 in
    let rest = drain_loop fuel addr (drop (6 + mbap_len) buf) in
    if ltb (length buf) 6
    then some (record { messages = []; left = buf; reconnects = false })
    else (if ltb mbap_len 1 || ltb 256 mbap_len
        then some (record { messages = []; left = []; reconnects = true })
        else (if ltb (length buf) (6 + mbap_len)
            then some (record { messages = []; left = buf; reconnects = false })
            else elim rest [
              | none ↦ none
              | some r ↦
                  some (
                    with_message (decode_tcp_response (take (6 + mbap_len) buf) no_response) addr r)
            ]))

-- Every round takes seven bytes or more off the buffer, so its length is fuel enough.
unfoldable pub drain : ℕ → List ℕ → Option Drained
drain addr buf = drain_loop (suc (length buf)) addr buf

pub record TcpDriver : Type 0 where
  pub slave_addr : ℕ
  pub reg_start : ℕ
  pub reg_count : ℕ
  pub trans_id : ℕ
  pub recv_buf : List ℕ

-- What one turn of the loop meets: whether the whole request went out, and what `select` and `read`
-- gave (`none` for a time-out, an error or the end of the stream).
pub record TcpTurn : Type 0 where
  pub written : Bool
  pub received : Option (List ℕ)

abbrev pub max_recv_buf : ℕ
max_recv_buf = 65536

-- One turn of `poll_loop`, with the request written, the messages delivered, and whether the driver
-- reconnects.
pub record Polled : Type 0 where
  pub driver : TcpDriver
  pub request : List ℕ
  pub messages : List InternalMessage
  pub reconnects : Bool

unfoldable pub poll_tcp : TcpDriver → TcpTurn → Option Polled
poll_tcp d t =
    let request = encode_tcp_request d.trans_id (record {
      slave_addr = d.slave_addr;
      function_code = 3;
      start_addr = d.reg_start;
      quantity = d.reg_count;
    }) in
    let d' : TcpDriver = record d { trans_id = (d.trans_id + 1) % 2 ^ 16 } in
    if t.written
    then elim t.received [
      | none ↦ some (record {
        driver = record d' { recv_buf = [] };
        request = request;
        messages = [];
        reconnects = true;
      })
      | some bytes ↦
          if ltb max_recv_buf (length (d.recv_buf ++ bytes))
          then some (record {
            driver = record d' { recv_buf = [] };
            request = request;
            messages = [];
            reconnects = true;
          })
          else elim (drain d.slave_addr (d.recv_buf ++ bytes)) [
            | none ↦ none
            | some r ↦ some (record {
              driver = record d' { recv_buf = r.left };
              request = request;
              messages = r.messages;
              reconnects = r.reconnects;
            })
          ]
    ]
    else some (record { driver = d'; request = request; messages = []; reconnects = true })
