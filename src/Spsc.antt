-- ===== src/Spsc.antt =====
-- common/SpscQueue.h and gateway_engine/pipeline/PipelineQueue.h: the lock-free queue between two
-- stages of the video pipeline, and its wrapper with an overflow policy.
pub mod Queue
pub mod Fifo
pub mod Concurrent
pub mod Invariant
pub mod Safety
pub mod Overflow
mod Tests
