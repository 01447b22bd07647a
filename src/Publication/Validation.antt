-- ===== src/Publication/Validation.antt =====
-- validation.go: `ValidateFact`, the checks in their order. The first that fails gives the error.
pub mod Facts
use tokeninsights.Prelude.{
  ℕ, String, Bool, true, false, not, ◌&&◌, ◌||◌, List, [], ◌∷◌, Option, none, some, one_of, ◌==◌,
  string_eq, if◌then◌else◌,
}
use tokeninsights.Prelude.Int.{ℤ, pos, ◌+ℤ◌, ◌-ℤ◌, ltb_ℤ, leb_ℤ, int_eq}
use tokeninsights.Publication.{
  Fact, FactMessage, Location, SourceRevision, safe_integer, max_timestamp_ms, claude_revision_rule,
}
use tokeninsights.Publication.Text.{valid_string, valid_location_label}
use tokeninsights.Publication.Identity.{session_id, message_id, fact_id, location_id}

pub record ValidationError : Type 0 where
  pub code : String
  pub field : String

unfoldable pub valid_integer : ℤ → Bool
valid_integer value = leb_ℤ (pos 0) value && leb_ℤ value (pos safe_integer)

unfoldable pub valid_timestamp_ms : ℤ → Bool
valid_timestamp_ms value = leb_ℤ (pos 0) value && leb_ℤ value (pos max_timestamp_ms)

-- An error where the test is true.
unfoldable pub fails : Bool → String → String → Option ValidationError
fails bad error name = if bad then some (record { code = error; field = name }) else none

unfoldable pub first_of : List (Option ValidationError) → Option ValidationError
first_of [] = none
first_of (none ∷ checks) = first_of checks
first_of (some e ∷ checks) = some e

-- The loop over the components, from `sum` on: the sum, if no component is out of range and no sum.
unfoldable pub sum_components : ℤ → List ℤ → Option ℤ
sum_components sum [] = some sum
sum_components sum (c ∷ cs) =
    let rest = sum_components (sum +ℤ c) cs in
    if not (valid_integer c) || ltb_ℤ (pos safe_integer -ℤ sum) c then none else rest

unfoldable pub components : Fact → List ℤ
components f =
    f.input_tokens ∷ f.output_tokens ∷ f.reasoning_tokens ∷ f.cache_read_tokens
    ∷ f.cache_write_tokens ∷ []

unfoldable pub check_times : Fact → Option ValidationError
check_times f =
    fails
      (not (valid_timestamp_ms f.session.first_occurred_at_ms)
        || not (valid_timestamp_ms f.session.last_occurred_at_ms)
        || ltb_ℤ f.session.last_occurred_at_ms f.session.first_occurred_at_ms
        || not (valid_timestamp_ms f.occurred_at_ms)
        || ltb_ℤ f.occurred_at_ms f.session.first_occurred_at_ms
        || ltb_ℤ f.session.last_occurred_at_ms f.occurred_at_ms)
      "invalid_request" "occurredAtMs"

unfoldable pub check_tokens : Fact → Option ValidationError
check_tokens f = elim (sum_components (pos 0) (components f)) [
  | none ↦ fails true "invalid_tokens" "components"
  | some sum ↦
      fails (not (valid_integer f.total_tokens) || not (f.total_tokens == sum)) "invalid_tokens"
        "totalTokens"
]

unfoldable pub check_message_time : Option FactMessage → Option ValidationError
check_message_time none = none
check_message_time (some m) =
    fails (not (valid_timestamp_ms m.occurred_at_ms)) "invalid_request" "message.occurredAtMs"

abbrev is_nil : Option FactMessage → Bool
is_nil none = true
is_nil (some m) = false

unfoldable pub check_revision : Fact → Option SourceRevision → Option ValidationError
check_revision f none = none
check_revision f (some r) =
    fails
      (not (f.harness == "claude-code")
        || f.native_request_id == ""
        || is_nil f.message
        || not (r.rule == claude_revision_rule)
        || not (valid_timestamp_ms r.value)
        || not (r.value == f.occurred_at_ms))
      "invalid_revision" "revision"

module _ (tuple_id : List String → String) where
  unfoldable pub check_session : Fact → Option ValidationError
  check_session f =
      fails
        (not (f.session.harness == f.harness)
          || not (valid_string f.session.native_id true)
          || not (f.session.id == session_id tuple_id f.harness f.session.native_id))
        "invalid_identity" "session"

  unfoldable pub check_message : Fact → Option FactMessage → Option ValidationError
  check_message f none = none
  check_message f (some m) =
      fails
        (not (valid_string m.native_id true)
          || not (m.id == message_id tuple_id f.harness f.session.native_id m.native_id))
        "invalid_identity" "message"

  unfoldable pub check_location : Option Location → Option ValidationError
  check_location none = none
  check_location (some l) =
      fails
        (l.directory_key == "" && l.repository_key == ""
          || not (l.id == location_id tuple_id l)
          || not (valid_string l.directory_key false)
          || not (valid_location_label l.directory_name)
          || not (valid_string l.repository_key false)
          || not (valid_location_label l.repository_name)
          || not (valid_string l.repository_source false)
          || l.directory_key == "" && not (l.directory_name == "")
          || l.repository_key == ""
            && (not (l.repository_name == "") || not (l.repository_source == "")))
        "invalid_request" "location"

  unfoldable pub validate_fact : Fact → Option ValidationError
  validate_fact f = first_of (
      fails (not (one_of ("opencode" ∷ "pi" ∷ "codex" ∷ "claude-code" ∷ []) f.harness))
        "invalid_request" "harness"
      ∷ check_session f
      ∷ check_times f
      ∷ fails
          (not (valid_string f.native_request_id false)
            || is_nil f.message && f.native_request_id == "")
          "invalid_identity" "nativeIdentity"
      ∷ check_message_time f.message
      ∷ check_message f f.message
      ∷ fails (not (f.usage_scope == "message") || not (f.id == fact_id tuple_id f))
          "invalid_identity" "fact"
      ∷ fails (not (valid_string f.provider true) || not (valid_string f.model true))
          "invalid_request" "providerModel"
      ∷ fails (not (one_of ("explicit" ∷ "inferred" ∷ "unknown" ∷ []) f.provider_source))
          "invalid_request" "providerSource"
      ∷ fails (not (one_of ("exact" ∷ "derived" ∷ "estimated" ∷ []) f.quality)) "invalid_request"
          "quality"
      ∷ check_tokens f
      ∷ check_revision f f.revision
      ∷ check_location f.location
      ∷ [])
