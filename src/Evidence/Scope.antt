-- ===== src/Evidence/Scope.antt =====
-- packages/core/evidence/whitelist.go: which records hold usage, the scope in which a record is processed and its
-- identity. The hash of a tuple's JSON text is a parameter.
pub mod Told
mod Examples
use Prim.Native.String
use tokeninsights.Prelude.{
  codes, String, Bool, true, false, not, ◌&&◌, ◌||◌, List, [], ◌∷◌, Option, none, some, ◌==◌,
  string_eq, if◌then◌else◌,
}
use tokeninsights.Prelude.Int.{ℤ}
use tokeninsights.Evidence.Json.{Json}
use tokeninsights.Evidence.Sanitize.{starts_with}
use tokeninsights.Evidence.Records.{Place, NativeContext, SourceRecord, string_at}

-- `UsageRecord`
unfoldable pub usage_record : String → String → Option Json → Bool
usage_record harness format content =
    let kind = string_at content ("type" ∷ []) in
    if harness == "opencode"
    then format == "opencode-v1" && string_at content ("data" ∷ "role" ∷ []) == "assistant"
      || format == "opencode-v2" && kind == "assistant"
    else if harness == "pi"
    then kind == "message" && string_at content ("message" ∷ "role" ∷ []) == "assistant"
    else if harness == "claude-code"
    then kind == "assistant" && string_at content ("message" ∷ "role" ∷ []) == "assistant"
    else if harness == "codex"
    then kind == "event_msg" && string_at content ("payload" ∷ "type" ∷ []) == "token_count"
    else false

-- The native id of the session that the record itself names.
unfoldable pub own_native : SourceRecord → String
own_native r =
    if r.harness == "opencode"
    then (if r.format == "opencode-session"
        then string_at r.content ("id" ∷ [])
        else string_at r.content ("session_id" ∷ []))
    else if r.harness == "claude-code"
    then (if string_at r.content ("sessionId" ∷ []) == ""
        then string_at r.content ("session_id" ∷ [])
        else string_at r.content ("sessionId" ∷ []))
    else if r.harness == "pi" && string_at r.content ("type" ∷ []) == "session"
    then string_at r.content ("id" ∷ [])
    else if r.harness == "codex" && string_at r.content ("type" ∷ []) == "session_meta"
    then string_at r.content ("payload" ∷ "id" ∷ [])
    else ""

-- The native id that the contexts name, the last one that does.
unfoldable pub context_native : String → List NativeContext → String → String
context_native harness [] native = native
context_native harness (c ∷ cs) native =
    let kind = string_at c.content ("type" ∷ []) in
    context_native harness cs (
      if harness == "pi" && kind == "session"
      then string_at c.content ("id" ∷ [])
      else if harness == "codex" && kind == "session_meta"
      then string_at c.content ("payload" ∷ "id" ∷ [])
      else native)

unfoldable pub native_session : SourceRecord → String
native_session r =
    if own_native r == "" then context_native r.harness r.context "" else own_native r

-- `SessionScope`
unfoldable pub session_scope : String → String → String
session_scope harness native = String.◌++◌ harness (String.◌++◌ ":session:" native)

-- The id of a record within its session.
unfoldable pub own_id : SourceRecord → String
own_id r =
    if r.harness == "opencode" || r.harness == "pi"
    then string_at r.content ("id" ∷ [])
    else if r.harness == "claude-code"
    then (if string_at r.content ("uuid" ∷ []) == ""
        then String.◌++◌ (string_at r.content ("message" ∷ "id" ∷ [])) (
            String.◌++◌ ":" (
              String.◌++◌ (string_at r.content ("requestId" ∷ []))
                (String.◌++◌ ":" (string_at r.content ("request_id" ∷ [])))))
        else string_at r.content ("uuid" ∷ []))
    else ""

module _ (tuple : List String → String) where
  -- `recordScope` and `Scope`
  unfoldable pub scope : SourceRecord → String
  scope r =
      if native_session r == ""
      then String.◌++◌ r.harness (String.◌++◌ ":source:" (tuple (r.source_id ∷ r.lineage ∷ [])))
      else session_scope r.harness (native_session r)

  unfoldable pub is_source_scope : SourceRecord → Bool
  is_source_scope r = starts_with (codes (String.◌++◌ r.harness ":source:")) (codes (scope r))

  -- `NativeRecordKey`
  unfoldable pub native_record_key : SourceRecord → String
  native_record_key r =
      if is_source_scope r
      then ""
      else if own_id r == "" || own_id r == "::"
      then ""
      else tuple (r.harness ∷ r.format ∷ scope r ∷ own_id r ∷ [])

  module _ (numbered : List String → ℤ → String)
      (content_hash : String → SourceRecord → String) where
    -- `EvidenceID`; `numbered` is the hash of a tuple that ends in a number, `content_hash` that of the key
    -- with the data, the contexts, the location and the diagnostics.
    unfoldable pub evidence_id : SourceRecord → String
    evidence_id r =
        content_hash
          (if native_record_key r == ""
            then numbered (r.harness ∷ r.format ∷ r.source_id ∷ r.lineage ∷ []) r.ordinal
            else native_record_key r)
          r
