-- ===== src/Engines.antt =====
-- gateway_core/EngineManager.{h,cpp}: the heartbeats of the analysis engines.
pub mod Manager
pub mod Laws
pub mod Tests
