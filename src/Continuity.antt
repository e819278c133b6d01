-- ===== src/Continuity.antt =====
-- linux/src/runtime/playback_audio_continuity.rs: what one generation of remote audio reports of its
-- continuity. What is logged is left out, but for whether the summary of the teardown is.
pub mod Teardown
pub mod Tracker
pub mod Writes
pub mod Stream
mod Tests
