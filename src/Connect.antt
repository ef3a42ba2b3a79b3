-- ===== src/Connect.antt =====
-- gateway_access/UdsClient.{h,cpp}: the connection to gateway_core is tried again after growing
-- pauses.
pub mod Backoff
pub mod Laws
pub mod Tests
