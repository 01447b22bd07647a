-- ===== src/Publication.antt =====
-- packages/core/publication/types.go: processed facts. A nil pointer is `none`.
pub mod Text
pub mod Identity
pub mod Validation
mod Examples
use tokeninsights.Prelude.{ℕ, ◌^◌, ◌-◌, String, Bool, Option}
use tokeninsights.Prelude.Int.{ℤ}

abbrev pub max_string_bytes : ℕ
max_string_bytes = 256

abbrev pub safe_integer : ℕ
safe_integer = 9007199254740991

abbrev pub max_timestamp_ms : ℕ
max_timestamp_ms = 253402214399999

abbrev pub claude_revision_rule : String
claude_revision_rule = "claude-source-timestamp-v1"

pub record Session : Type 0 where
  pub id : String
  pub harness : String
  pub native_id : String
  pub first_occurred_at_ms : ℤ
  pub last_occurred_at_ms : ℤ

pub record FactMessage : Type 0 where
  pub id : String
  pub native_id : String
  pub occurred_at_ms : ℤ

pub record Location : Type 0 where
  pub id : String
  pub directory_key : String
  pub directory_name : String
  pub repository_key : String
  pub repository_name : String
  pub repository_source : String

pub record SourceRevision : Type 0 where
  pub rule : String
  pub value : ℤ

pub record Fact : Type 0 where
  pub id : String
  pub harness : String
  pub session : Session
  pub message : Option FactMessage
  pub native_request_id : String
  pub occurred_at_ms : ℤ
  pub provider : String
  pub provider_source : String
  pub model : String
  pub usage_scope : String
  pub quality : String
  pub countable : Bool
  pub input_tokens : ℤ
  pub output_tokens : ℤ
  pub reasoning_tokens : ℤ
  pub cache_read_tokens : ℤ
  pub cache_write_tokens : ℤ
  pub total_tokens : ℤ
  pub location : Option Location
  pub revision : Option SourceRevision
