-- ===== src/Offline.antt =====
-- What could not be sent is kept in a table until it can (gateway_core/OfflineStore.{h,cpp}).
pub mod Table
pub mod Store
pub mod Flush
pub mod Tests
