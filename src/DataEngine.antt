-- ===== src/DataEngine.antt =====
-- packages/core/dataengine: the coordination of durable processing. What is stored as evidence and
-- what is projected from it are parameters; the storage backend is an interface.
pub mod Stale
pub mod Dispatch
pub mod Next
pub mod Processing
mod Examples
use tokeninsights.Prelude.{ℕ, String, Bool, List}
use tokeninsights.Prelude.Maps.{Map}
use tokeninsights.Prelude.Int.{ℤ}

-- A connected component of the evidence in one dataset. `bytes` is a size.
pub record Work (Evidence : Type 0) : Type 0 where
  pub dataset_id : String
  pub revision : ℤ
  pub generation : ℤ
  pub root : String
  pub bytes : ℕ
  pub scopes : Map ℤ
  pub records : List Evidence
