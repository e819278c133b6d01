-- ===== src/Peers.antt =====
-- What the application knows of its peers: shared/lan-state/src (facts of a device row, bandwidth
-- estimates) and the transport states of windows/src/session/state.rs and
-- mac/src/network/session/state.rs.
pub mod Facts
pub mod Rows
pub mod Bandwidth
pub mod Reconnect
pub mod Transport
pub mod Windows
pub mod Late
pub mod Mac
pub mod Forgotten
mod Tests
