-- ===== src/CollectorProgress.antt =====
-- packages/core/collectorprogress: the in-memory registry of collection attempts.
pub mod Message
pub mod Capture
pub mod Registry
pub mod Snapshot
mod Examples
