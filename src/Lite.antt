-- ===== src/Lite.antt =====
-- The headless Windows Lite client, windows-lite/src: what it makes of an mDNS service name and
-- record (Service, Target), its registry of devices (Registry), and the discovery worker that feeds
-- the registry and publishes snapshots of it (Discovery).
pub mod Service
pub mod Target
pub mod Registry
pub mod Discovery
pub mod Reports
pub mod Names
pub mod Grants
pub mod Valid
pub mod Coherence
pub mod Shown
pub mod Published
pub mod Lifetime
mod Tests
