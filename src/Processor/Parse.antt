-- ===== src/Processor/Parse.antt =====
-- process.go: what `parseEvidence` takes and returns, decoded JSON as the parsers read it, and the fields that a
-- harness may name twice.
pub mod Raw
pub mod Candidate
pub mod Traced
pub mod Doubt
pub mod Certain
pub mod Counted
pub mod Read
pub mod Examples
use Prim.Native.String
use tokeninsights.Prelude.{
  codes, String, Bool, true, false, not, ◌&&◌, ◌||◌, List, [], ◌∷◌, ◌++◌, Option, none, some,
  is_none, ◌==◌, string_eq, if◌then◌else◌,
}
use tokeninsights.Prelude.Int.{ℤ, pos, ltb_ℤ}
use tokeninsights.Prelude.Results.{Result, err, ok, guard, ◌>>=◌, ◌>>◌}
use tokeninsights.Publication.{
  Fact, FactMessage, Session, Location, SourceRevision, claude_revision_rule,
}
use tokeninsights.Publication.Identity.{set_ids}
use tokeninsights.Publication.Validation.{ValidationError, valid_timestamp_ms, validate_fact}
use tokeninsights.Evidence.Json.{Json, Members, FieldPath, value_of, leaf, end}
use tokeninsights.Evidence.Sanitize.{contains_text, decode_object}
use tokeninsights.Evidence.Records.{Place, NativeContext, SourceRecord, same, string_at}
use tokeninsights.Processor.Tokens.{token_component_sum, int_pointer_value}
use tokeninsights.Processor.Native.{
  Native, null, other, number, text, object, Fields, field, fields_of, text_or,
}
use tokeninsights.Processor.Session.{
  RawTokenFact, CodexSnapshot, CodexCandidate, UsageSnapshot, SessionState, no_state,
  apply_contexts, apply_turn_context,
}
use tokeninsights.Processor.Event.{EventResult, fact_from_event, flush_pending}
use tokeninsights.Processor.Messages.{components_of}
use tokeninsights.Processor.Pi.{pi_fact, given}
use tokeninsights.Processor.Claude.{claude_fact, claude_request_id, finalize_claude_fact, counts_of}
use tokeninsights.Processor.OpenCode.{fact_from_message, fact_from_v2_message, decode_int}
use tokeninsights.Processor.Canonical.{countable, canonical_provider, canonical_model}

-- evidence.Stored, without the scope
pub record StoredRecord : Type 0 where
  pub id : String
  pub source : SourceRecord

-- What the parser of a harness makes of a record.
pub record ParsedRecord : Type 0 where
  pub raw : RawTokenFact
  pub request_id : String
  pub diagnostics : List String
  pub codex : Option CodexCandidate

-- evidenceCandidate
pub record EvidenceCandidate : Type 0 where
  pub stored : StoredRecord
  pub fact : Fact
  pub code : String
  pub codex : Option CodexCandidate

-- Decoded JSON as the parsers read it: of the members of one name the last counts, which comes first here.
unfoldable mutual
  pub native_of : Json → Native
  native_of Json.null = null
  native_of (Json.truth b) = other
  native_of (Json.number s) = number s
  native_of (Json.text s) = text s
  native_of (Json.array items) = other
  native_of (Json.object ms) = object (fields_from ms Fields.end)

  pub fields_from : Members → Fields → Fields
  fields_from Members.end later = later
  fields_from (Members.member key v rest) later = fields_from rest (field key (native_of v) later)

abbrev pub native_fields : Members → Fields
native_fields ms = fields_from ms Fields.end

abbrev pub alias_groups : String → List (List FieldPath)
alias_groups harness =
    if harness == "claude-code"
    then (("sessionId" ∷ []) ∷ ("session_id" ∷ []) ∷ [])
      ∷ (("requestId" ∷ []) ∷ ("request_id" ∷ []) ∷ [])
      ∷ (("message" ∷ "provider" ∷ [])
          ∷ ("message" ∷ "provider_id" ∷ [])
          ∷ ("message" ∷ "providerID" ∷ [])
          ∷ [])
      ∷ (("message" ∷ "model" ∷ [])
          ∷ ("message" ∷ "model_id" ∷ [])
          ∷ ("message" ∷ "modelID" ∷ [])
          ∷ [])
      ∷ (("message" ∷ "usage" ∷ "output_tokens_details" ∷ "thinking_tokens" ∷ [])
          ∷ ("message" ∷ "usage" ∷ "output_tokens_details" ∷ "reasoning_tokens" ∷ [])
          ∷ [])
      ∷ []
    else if harness == "codex"
    then (("payload" ∷ "info" ∷ "last_token_usage" ∷ "cached_input_tokens" ∷ [])
        ∷ ("payload" ∷ "info" ∷ "last_token_usage" ∷ "cache_read_input_tokens" ∷ [])
        ∷ [])
      ∷ (("payload" ∷ "info" ∷ "total_token_usage" ∷ "cached_input_tokens" ∷ [])
          ∷ ("payload" ∷ "info" ∷ "total_token_usage" ∷ "cache_read_input_tokens" ∷ [])
          ∷ [])
      ∷ []
    else []

-- A value that is neither null nor the empty text.
abbrev pub named_value : Option Json → Option Json
named_value none = none
named_value (some Json.null) = none
named_value (some (Json.text s)) = if s == "" then none else some (Json.text s)
named_value (some v) = some v

abbrev pub differs : Option Json → Json → Bool
differs none v = false
differs (some w) v = not (same v w)

-- Whether a value of the group is not the one before it; equal values have equal encodings.
unfoldable pub group_conflicts : Members → Option Json → List FieldPath → Bool
group_conflicts ms previous [] = false
group_conflicts ms previous (path ∷ rest) =
    let unchanged = group_conflicts ms previous rest in
    elim (named_value (leaf path ms)) [
      | none ↦ unchanged
      | some v ↦ differs previous v || group_conflicts ms (some v) rest
    ]

unfoldable pub any_group_conflicts : Members → List (List FieldPath) → Bool
any_group_conflicts ms [] = false
any_group_conflicts ms (group ∷ rest) = group_conflicts ms none group || any_group_conflicts ms rest

-- `conflictingNativeAliases`
unfoldable pub conflicting_native_aliases : String → Members → Bool
conflicting_native_aliases harness ms = any_group_conflicts ms (alias_groups harness)
