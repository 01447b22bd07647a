-- ===== src/Processor/Outside.antt =====
-- What the processing takes from outside the repository: hashes of JSON texts by encoding/json and crypto/sha256, and
-- the timestamps that package time reads.
use tokeninsights.Prelude.{String, List, Option}
use tokeninsights.Prelude.Int.{ℤ}
use tokeninsights.Publication.{Fact}
use tokeninsights.Processor.Session.{CodexSnapshot}

pub record Outside : Type 0 where
  -- The hash of a tuple, and that of the source, the lineage and the ordinal of a record.
  pub tuple_id : List String → String
  pub estimate_id : String → String → ℤ → String
  -- The hashes of a fact, of a snapshot and of what proves a snapshot, and that of a text.
  pub json_hash : Fact → String
  pub snapshot_hash : CodexSnapshot → String
  pub proof_hash : String → String → String → CodexSnapshot → String
  pub hash : String → String
  -- The milliseconds of a timestamp, if it is one.
  pub parse_timestamp : String → Option ℤ
