-- ===== src/Wire/RoundTrip.antt =====
-- What the two ends of a socket may rely on: decoding undoes encoding, and never reads past the data.
use aiot_edge_gateway.Prelude.{
  ℕ, ◌+◌, ◌-◌, ◌↔◌, ◌⊎◌, ◌^◌, ◌≤◌, ◌<◌, ◌≡◌, true, false, List, ◌++◌, arith, length, length-append,
  take-append, length-take, length-drop, take, drop,
}
use aiot_edge_gateway.Prelude.Bytes.{be32, read_be32}
use aiot_edge_gateway.Wire.Codec.{
  InternalMessage, header_size, encode_internal_msg, decode_internal_msg,
}

-- The fields hold what their C types can hold, and the payload fits the length field.
pub record IsEncodable (msg : InternalMessage) : Type 0 where
  pub source_fits : msg.source_type < 2 ^ 32
  pub node_fits : msg.node_id < 2 ^ 32
  pub tlv_fits : msg.tlv_type < 256
  pub payload_fits : length msg.payload < 2 ^ 32

pub read-be32 : (w : ℕ) (rest : List ℕ) → w < 2 ^ 32 → read_be32 (be32 w ++ rest) 0 ≡ w
read-be32 w rest h = omega arith

-- Decoding an encoded message gives the message back and consumes exactly its bytes, whatever
-- follows it in the buffer.
pub decode-encode :
    (msg : InternalMessage) (rest : List ℕ)
    → IsEncodable msg
    → decode_internal_msg (encode_internal_msg msg ++ rest)
      ≡ record { ok = true; consumed = length (encode_internal_msg msg); msg = msg }
unfolding encode_internal_msg decode_internal_msg
decode-encode msg rest v =
    ground
      (arith, length-append msg.payload rest, take-append (length msg.payload) msg.payload rest)

-- A successful decode stays inside the data: it consumes the header and the payload, which is the
-- stretch of the data behind the header, and no more bytes than there are.
pub decode-within :
    (bs : List ℕ)
    → (decode_internal_msg bs).ok ≡ true
    → let r = decode_internal_msg bs in
      (r.consumed ≤ length bs)
      × (r.consumed ≡ header_size + length r.msg.payload)
      × (r.msg.payload ≡ take (r.consumed - header_size) (drop header_size bs))
unfolding decode_internal_msg
decode-within bs h =
    ground (arith, length-take (read_be32 bs 9) (drop header_size bs), length-drop header_size bs)

-- A decode fails exactly where the data ends before the header does, or before the payload that
-- the header announces; then nothing is consumed.
pub decode-fails :
    (bs : List ℕ)
    → ((decode_internal_msg bs).ok ≡ false)
      ↔ ((length bs < header_size) ⊎ (length bs < header_size + read_be32 bs 9))
unfolding decode_internal_msg
decode-fails bs = ground arith
