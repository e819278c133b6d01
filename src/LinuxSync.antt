-- ===== src/LinuxSync.antt =====
-- linux/src/runtime/playback_sync.rs: the ownership of the media clock (Clock, Ownership) and the
-- scheduling of decoded video against it (Video, Pacing).
pub mod Clock
pub mod Ownership
pub mod Video
pub mod Pacing
mod Tests
