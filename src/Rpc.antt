-- ===== src/Rpc.antt =====
-- gateway_core/RpcHandler.{h,cpp}: requests from the cloud, told apart by an id and handed to the
-- handler of their method.
pub mod Handler
pub mod Extract
pub mod Replay
pub mod NumericId
pub mod Tests
