-- ===== src/Evidence.antt =====
-- packages/core/evidence: the sanitized records of the sources.
pub mod Json
pub mod Sanitize
pub mod Records
pub mod Batch
pub mod Scope
mod Examples
