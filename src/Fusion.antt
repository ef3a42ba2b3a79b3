-- ===== src/Fusion.antt =====
-- gateway_core/EventFusion.{h,cpp}: detections of the engines and readings of the sensors make alarms.
pub mod Evaluate
pub mod Laws
pub mod Tests
