-- ===== src/Watchdog.antt =====
-- gateway_watchdog/main.cpp: the process that starts the other four and restarts them.
pub mod Loop
pub mod Lost
pub mod Rate
pub mod Dependency
pub mod StartUp
pub mod Tests
