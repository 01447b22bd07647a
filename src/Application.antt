-- ===== src/Application.antt =====
-- packages/core/application and packages/core/analytics: what a viewer asks for, how it is
-- normalised, and how the query operations answer it.
pub mod Selection
pub mod Normalize
pub mod Viewer
mod Examples
