-- ===== src/Shm.antt =====
-- common/ShmLayout.h, gateway_core/ShmPublisher.cpp and common/ShmReader.cpp: the shared memory by
-- which the core shows its state to the monitor, two buffers under a sequence lock each.
pub mod Region
pub mod Seqlock
pub mod Invariant
pub mod Publish
pub mod Safety
pub mod Calls
mod Tests
