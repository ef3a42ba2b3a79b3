-- ===== src/Settings.antt =====
-- common/Config.{h,cpp}: the configuration file that every process reads when it starts.
pub mod File
pub mod RoundTrip
pub mod Tests
