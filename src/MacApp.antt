-- ===== src/MacApp.antt =====
-- mac/src/runtime.rs: the snapshot of the application, which the runtime's owner changes by commands
-- and events and which the interface shows. The owner handles one input after another, so each
-- handler is one step.
pub mod Lifecycle
pub mod Snapshot
pub mod Watch
pub mod Share
pub mod Media
pub mod Coherent
pub mod Stale
pub mod Nearby
pub mod NetworkEvents
pub mod Cleanup
pub mod Control
pub mod Loop
pub mod Quiet
pub mod Rest
pub mod Serving
pub mod Turns
pub mod Reached
mod Tests
