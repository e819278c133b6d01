-- ===== src/MacSync.antt =====
-- mac/src/playback/sync.rs: the video scheduler of the macOS client (Video), the order of its queue
-- (Order) and what is presented (Presented). Its clock and media clock have the text of
-- linux/src/runtime/playback_sync.rs, and are those of LinuxSync/Clock.antt.
pub mod Video
pub mod Order
pub mod Presented
mod Tests
