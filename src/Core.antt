-- ===== src/Core.antt =====
-- gateway_core/main.cpp: what the core does with a message from the access process or the engine, and
-- the commands of the cloud that it hands on to them.
pub mod Commands
pub mod Messages
pub mod Engine
pub mod Answer
pub mod Tests
