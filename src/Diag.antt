-- ===== src/Diag.antt =====
-- shared/diagnostics/src: which events are captured (filter.rs), the ring of the latest entries that
-- the application shows (ring.rs), and the queue of the lines that are written (worker.rs).
pub mod Filter
pub mod Levels
pub mod Losses
pub mod Ring
pub mod Log
pub mod Snapshots
pub mod Worker
pub mod Queue
pub mod Barrier
pub mod Order
mod Tests
mod WorkerTests
