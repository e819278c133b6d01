-- ===== src/WinApp.antt =====
-- windows/src/runtime.rs: the snapshot of the application for the LAN, which the runtime changes by
-- the events of its services.
pub mod Snapshot
pub mod Events
pub mod Rows
pub mod Shown
pub mod Routes
pub mod Screens
pub mod Agreed
pub mod Watchable
mod Tests
