-- ===== src/Wire/Codec.antt =====
-- `encode_internal_msg` and `decode_internal_msg` of common/InternalMessage.cpp.
use aiot_edge_gateway.Prelude.{
  ℕ, ◌+◌, ◌%◌, ◌^◌, Bool, true, false, List, [], ◌++◌, ◌∷◌, ltb, if◌then◌else◌, length, take, drop,
  get_or,
}
use aiot_edge_gateway.Prelude.Bytes.{be32, read_be32}

-- `struct InternalMessage`
pub record InternalMessage : Type 0 where
  pub source_type : ℕ
  pub node_id : ℕ
  pub tlv_type : ℕ
  pub payload : List ℕ

-- `struct DecodeResult`; `msg` starts out value-initialised.
pub record DecodeResult : Type 0 where
  pub ok : Bool
  pub consumed : ℕ
  pub msg : InternalMessage

-- `source_type` + `node_id` + `tlv_type` + `payload_len`
abbrev pub header_size : ℕ
header_size = 13

abbrev pub empty_msg : InternalMessage
empty_msg = record { source_type = 0; node_id = 0; tlv_type = 0; payload = [] }

-- The length field is the payload's size cast to `uint32_t`.
unfoldable pub encode_internal_msg : InternalMessage → List ℕ
encode_internal_msg msg =
    be32 msg.source_type
    ++ (be32 msg.node_id ++ (msg.tlv_type ∷ (be32 (length msg.payload % 2 ^ 32) ++ msg.payload)))

-- `header_size + payload_len` is a 64-bit sum of a 32-bit number, so it does not wrap.
unfoldable pub decode_internal_msg : List ℕ → DecodeResult
decode_internal_msg data_in =
    if ltb (length data_in) header_size
    then record { ok = false; consumed = 0; msg = empty_msg }
    else (let payload_len = read_be32 data_in 9 in
        let header : InternalMessage = record {
          source_type = read_be32 data_in 0;
          node_id = read_be32 data_in 4;
          tlv_type = get_or data_in 8 0;
          payload = [];
        } in
        if ltb (length data_in) (header_size + payload_len)
        then record { ok = false; consumed = 0; msg = header }
        else record {
          ok = true;
          consumed = header_size + payload_len;
          msg = record header { payload = take payload_len (drop header_size data_in) };
        })
