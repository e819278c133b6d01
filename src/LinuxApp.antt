-- ===== src/LinuxApp.antt =====
-- linux/src/runtime/supervisor.rs: what the supervisor decides on its own.
pub mod Retry
pub mod Backoff
mod Tests
