-- ===== src/Ota.antt =====
-- gateway_core/OtaManager.{h,cpp}: a model is downloaded, verified, and switched to when the engine
-- agrees.
pub mod Manager
pub mod Laws
pub mod Extract
pub mod Tests
