-- ===== src/Processor/Session.antt =====
-- codex.go: the state of a Codex session file and what its context records make of it. A
-- diagnostic is its code.
pub mod Kept
use Prim.Native.String
use tokeninsights.Prelude.{
  ℕ, zero, suc, ◌+◌, ◌/◌, ◌%◌, String, Bool, true, false, not, ◌&&◌, ◌||◌, List, [], ◌∷◌, ◌++◌,
  Option, none, some, is_none, ltb, ◌==◌, nat_eq, string_eq, if◌then◌else◌,
}
use tokeninsights.Prelude.Int.{ℤ, pos, negsuc, ltb_ℤ}
use tokeninsights.Prelude.Maps.{Map, lookup}
use tokeninsights.Processor.Json.{JsonValue, Usage, codex_int_field}
use tokeninsights.Processor.Tokens.{
  CodexTokenCounts, CodexTokens, refused, counted, codex_tokens_from_usage,
}
use tokeninsights.Processor.Native.{
  Native, null, other, number, text, object, Fields, end, field, field_of, fields_of, nested,
  string_field, string_value, trim_text,
}

pub record UsageSnapshot : Type 0 where
  pub input : Option ℤ
  pub cached_input : Option ℤ
  pub cache_read : Option ℤ
  pub output : Option ℤ
  pub reasoning : Option ℤ
  pub total : Option ℤ

pub record CodexSnapshot : Type 0 where
  pub last : Option UsageSnapshot
  pub total : Option UsageSnapshot

-- RawTokenFact, as far as codex.go sets it from the source.
pub record RawTokenFact : Type 0 where
  pub harness : String
  pub source_id : String
  pub source_kind : String
  pub occurred_at_ms : Option ℤ
  pub session_id : Option String
  pub message_id : Option String
  pub provider : Option String
  pub model : Option String
  pub usage_scope : String
  pub quality : String
  pub input_tokens : Option ℤ
  pub output_tokens : Option ℤ
  pub reasoning_tokens : Option ℤ
  pub cache_read_tokens : Option ℤ
  pub cache_write_tokens : Option ℤ
  pub total_tokens : Option ℤ

pub record CodexCandidate : Type 0 where
  pub fact : RawTokenFact
  pub turn_id : Option String
  pub line : ℤ
  pub snapshot : CodexSnapshot
  pub replay_valid : Bool
  pub cumulative : Option CodexTokenCounts

pub record PendingFact : Type 0 where
  pub candidate : CodexCandidate
  pub diagnostics : List String

pub record SessionState : Type 0 where
  pub session_id : String
  pub saw_session_meta : Bool
  pub provider : Option String
  pub model : Option String
  pub turn_id : Option String
  pub pending : List PendingFact

abbrev pub no_state : SessionState
no_state = record {
  session_id = "";
  saw_session_meta = false;
  provider = none;
  model = none;
  turn_id = none;
  pending = [];
}

-- The first that is there.
abbrev pub or_else {ℓ} : {A : Type ℓ} → Option A → Option A → Option A
or_else (some a) later = some a
or_else none later = later

abbrev pub meet_session : Fields → String → SessionState → SessionState × List String
meet_session payload id s =
    if not s.saw_session_meta
    then (
      record s {
        saw_session_meta = true;
        session_id = id;
        provider = or_else s.provider (string_field payload "model_provider");
      },
      [],
    )
    else if not (s.session_id == id)
    then (s, "codex_jsonl_multiple_session_meta" ∷ [])
    else (record s { provider = or_else s.provider (string_field payload "model_provider") }, [])

abbrev pub meet_id : Fields → Option String → SessionState → SessionState × List String
meet_id payload none s = (s, [])
meet_id payload (some id) s = meet_session payload id s

-- `applySessionMeta`; a missing payload has no id.
unfoldable pub apply_session_meta : Fields → SessionState → SessionState × List String
apply_session_meta record' s =
    let payload = fields_of (nested (some record') "payload") in
    meet_id payload (string_field payload "id") s

unfoldable pub apply_turn_context : Fields → SessionState → SessionState
apply_turn_context record' s =
    let payload = fields_of (nested (some record') "payload") in
    record s {
      turn_id = or_else (string_field payload "turn_id") s.turn_id;
      model = or_else (string_field payload "model") s.model;
    }

-- What `parseEvidence` makes of one context record; `kind` is its type.
unfoldable pub apply_context : String → Fields → SessionState → SessionState
apply_context kind record' s =
    if kind == "session_meta"
    then (apply_session_meta record' s).0
    else if kind == "turn_context"
    then apply_turn_context record' s
    else if kind == "event_msg"
    then record s {
      turn_id =
          or_else (string_field (fields_of (nested (some record') "payload")) "turn_id") s.turn_id;
    }
    else s

unfoldable pub apply_contexts : List (String × Fields) → SessionState → SessionState
apply_contexts [] s = s
apply_contexts ((kind, record') ∷ more) s = apply_contexts more (apply_context kind record' s)

-- The numbers of a decoded object, as `codexTokensFromUsage` reads them.
unfoldable pub usage_of : Fields → Usage
usage_of end = []
usage_of (field name (number n) rest) = (name, JsonValue.number n) ∷ usage_of rest
usage_of (field name (text s) rest) = (name, JsonValue.text s) ∷ usage_of rest
usage_of (field name _ rest) = (name, JsonValue.other) ∷ usage_of rest
