-- ===== src/Processor.antt =====
-- packages/core/processor: the interpretation of evidence, without databases or files.
pub mod Json
pub mod Tokens
pub mod Native
pub mod Session
pub mod Snapshot
pub mod Event
pub mod Replay
pub mod Ancestry
pub mod Messages
pub mod Outside
pub mod Pi
pub mod Claude
pub mod OpenCode
pub mod Canonical
pub mod Parse
pub mod Select
pub mod Process
mod Examples
mod CodexExamples
