-- ===== src/Remote.antt =====
-- windows/src/screen_path.rs and windows/src/remote.rs: the paths under which screens are announced,
-- and the directory of the screens that are there.
pub mod Paths
pub mod Directory
pub mod Latest
mod Tests
