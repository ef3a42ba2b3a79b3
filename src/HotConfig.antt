-- ===== src/HotConfig.antt =====
-- gateway_core/ConfigManager.{h,cpp}: a configuration that the cloud sends is checked, written over
-- the old one, and handed to the modules that watch it.
pub mod Scan
pub mod Value
pub mod Manager
pub mod Tokens
pub mod ObjectEnd
pub mod Laws
pub mod Tests
