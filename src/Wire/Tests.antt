-- ===== src/Wire/Tests.antt =====
-- Concrete messages: a sensor reading, and frames that are cut short.
use aiot_edge_gateway.Prelude.{
  ℕ, ◌+◌, ◌-◌, ◌≤◌, ◌<◌, ◌≡◌, ◌↔◌, ◌⊎◌, refl, true, false, List, [], ◌∷◌, ◌++◌, arith, length, take,
  drop,
}
use aiot_edge_gateway.Prelude.Bytes.{read_be32}
use aiot_edge_gateway.Wire.Codec.{
  InternalMessage, header_size, encode_internal_msg, decode_internal_msg,
}
use aiot_edge_gateway.Wire.RoundTrip.{decode-encode, decode-within, decode-fails}

abbrev reading : InternalMessage
reading = record { source_type = 0; node_id = 258; tlv_type = 1; payload = 7 ∷ 8 ∷ 9 ∷ [] }

abbrev wire : List ℕ
wire = 0 ∷ 0 ∷ 0 ∷ 0 ∷ 0 ∷ 0 ∷ 1 ∷ 2 ∷ 1 ∷ 0 ∷ 0 ∷ 0 ∷ 3 ∷ 7 ∷ 8 ∷ 9 ∷ []

encode-reading : encode_internal_msg reading ≡ wire
unfolding encode_internal_msg
encode-reading = refl

decode-encode_example :
    decode_internal_msg (encode_internal_msg reading ++ 255 ∷ [])
    ≡ record { ok = true; consumed = length (encode_internal_msg reading); msg = reading }
decode-encode_example = decode-encode reading (255 ∷ []) (omega arith)

decode-within_example :
    let r = decode_internal_msg wire in
    (r.consumed ≤ length wire)
    × (r.consumed ≡ header_size + length r.msg.payload)
    × (r.msg.payload ≡ take (r.consumed - header_size) (drop header_size wire))
unfolding decode_internal_msg
decode-within_example = decode-within wire refl

-- One byte of the payload is missing.
decode-fails_example : ((decode_internal_msg (take 15 wire)).ok ≡ false) ↔ (
    (length (take 15 wire) < header_size)
    ⊎ (length (take 15 wire) < header_size + read_be32 (take 15 wire) 9))
decode-fails_example = decode-fails (take 15 wire)
