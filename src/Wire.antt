-- ===== src/Wire.antt =====
-- common/InternalMessage.{h,cpp}: the TLV message that every process sends over its sockets.
-- An `int32_t` field is its 32-bit pattern, which is what the casts to `uint32_t` keep.
pub mod Codec
pub mod RoundTrip
mod Tests
