-- ===== src/Frames.antt =====
-- The pool of frames (gateway_engine/pipeline/FramePool.{h,cpp}): the capture stage takes frames, and
-- whoever drops the last reference gives them back, without a lock.
pub mod Pool
pub mod Owned
pub mod Taken
pub mod Tests
