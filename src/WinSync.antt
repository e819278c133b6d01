-- ===== src/WinSync.antt =====
-- windows/src/playback/sync.rs: the estimated audio position (Audio) and the bounded presentation of
-- video against it (Video). Times and durations are nanoseconds.
pub mod Audio
pub mod Clock
pub mod Video
pub mod Loops
pub mod Order
pub mod Presented
pub mod Due
pub mod Accounts
mod Tests
