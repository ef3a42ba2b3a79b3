-- ===== src/Ring.antt =====
-- common/RingBuffer.{h,cpp}: the byte ring in front of a stream socket.
pub mod Buffer
pub mod Refine
mod Tests
