-- ===== src/EventLoop.antt =====
-- The core's event loop (gateway_core/EventLoop.{h,cpp}).
pub mod Loop
pub mod Watching
pub mod Delivery
pub mod Tests
