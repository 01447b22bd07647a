-- ===== src/Processor/Parse/Raw.antt =====
-- process.go: the part of `parseEvidence` that has the parser of the harness read the record.
use tokeninsights.Prelude.{
  String, Bool, true, not, ◌&&◌, ◌||◌, List, [], ◌∷◌, ◌++◌, Option, none, some, is_none, ◌==◌,
  string_eq, if◌then◌else◌,
}
use tokeninsights.Prelude.Int.{ltb_ℤ, int_eq}
use tokeninsights.Prelude.Results.{Result, err, ok, guard, ◌>>=◌, ◌>>◌}
use tokeninsights.Evidence.Json.{Json}
use tokeninsights.Evidence.Records.{NativeContext, SourceRecord, string_at}
use tokeninsights.Processor.Native.{Fields, end, field_of}
use tokeninsights.Processor.Outside.{Outside}
use tokeninsights.Processor.Session.{
  CodexCandidate, PendingFact, SessionState, no_state, apply_contexts, apply_turn_context,
}
use tokeninsights.Processor.Event.{fact_from_event, flush_pending}
use tokeninsights.Processor.Pi.{pi_fact}
use tokeninsights.Processor.Claude.{claude_fact, claude_request_id, finalize_claude_fact}
use tokeninsights.Processor.OpenCode.{fact_from_message, fact_from_v2_message, decode_int}
use tokeninsights.Processor.Parse.{StoredRecord, ParsedRecord, native_fields}

abbrev pub at_top : String → Option Json → String
at_top name content = string_at content (name ∷ [])

-- The data of a record of OpenCode, with the time of its row.
unfoldable pub parse_opencode : SourceRecord → Fields → Result (List String) ParsedRecord
parse_opencode r fs = do
  created ← decode_int (field_of "time_created" fs)
  guard (not (r.format == "opencode-v2") || at_top "type" r.content == "assistant") []
  let parser = if r.format == "opencode-v2" then fact_from_v2_message else fact_from_message
  parsed ←
      parser r.source_id r.format (at_top "id" r.content) (at_top "session_id" r.content) created
        (field_of "data" fs)
  ok (record { raw = parsed.0; request_id = ""; diagnostics = parsed.1; codex = none })

-- The id of the last header of the session.
unfoldable pub pi_session : List NativeContext → String → String
pi_session [] session = session
pi_session (entry ∷ rest) session =
    pi_session rest
      (if at_top "type" entry.content == "session" then at_top "id" entry.content else session)

unfoldable pub place_context : NativeContext → List NativeContext → List NativeContext
place_context c [] = c ∷ []
place_context c (d ∷ ds) =
    let later = place_context c ds in if ltb_ℤ d.ordinal c.ordinal then d ∷ later else c ∷ d ∷ ds

unfoldable pub sort_contexts : List NativeContext → List NativeContext
sort_contexts [] = []
sort_contexts (c ∷ cs) = place_context c (sort_contexts cs)

abbrev pub decoded_fields : Option Json → Option Fields
decoded_fields (some (Json.object ms)) = some (native_fields ms)
decoded_fields _ = none

-- The decoded contexts with their types; what is no object is left out.
unfoldable pub context_records : List NativeContext → List (String × Fields)
context_records [] = []
context_records (c ∷ cs) =
    let rest = context_records cs in
    elim (decoded_fields c.content) [ none ↦ rest | some fs ↦ (at_top "type" c.content, fs) ∷ rest ]

abbrev pub nearer : StoredRecord → Option StoredRecord → Bool
nearer item none = true
nearer item (some next) = ltb_ℤ item.source.ordinal next.source.ordinal

-- The nearest following turn context of the same source.
unfoldable pub next_context :
    SourceRecord → List StoredRecord → Option StoredRecord → Option StoredRecord
next_context r [] next = next
next_context r (item ∷ rest) next =
    let s = item.source in
    next_context r rest (
      if s.source_id == r.source_id
        && (s.lineage == r.lineage
            && (ltb_ℤ r.ordinal s.ordinal
                && (at_top "type" s.content == "turn_context" && nearer item next)))
      then some item
      else next)

abbrev pub fields_or_end : Option Fields → Fields
fields_or_end none = end
fields_or_end (some fs) = fs

abbrev pub with_context : Option StoredRecord → SessionState → SessionState
with_context none s = s
with_context (some next) s =
    apply_turn_context (fields_or_end (decoded_fields next.source.content)) s

abbrev pub first_flushed :
    List String
    → List CodexCandidate × List String
    → Result (List String) (CodexCandidate × List String)
first_flushed ds ([], more) = err (ds ++ more)
first_flushed ds (c ∷ cs, more) = ok (c, ds ++ more)

module _ (out : Outside) where
  -- The candidate that waits for its model.
  abbrev pub resolve_waiting :
      SourceRecord
      → List StoredRecord
      → SessionState
      → List String
      → List PendingFact
      → Result (List String) (CodexCandidate × List String)
  resolve_waiting r all s ds [] = err ds
  resolve_waiting r all s ds (p ∷ ps) =
      let told = with_context (next_context r all none) s in
      let (after, candidates, more) =
        flush_pending out.snapshot_hash (not (is_none told.model)) told in
      first_flushed ds (candidates, more)

  abbrev pub resolve_event :
      SourceRecord
      → List StoredRecord
      → SessionState
      → List String
      → Option CodexCandidate
      → Result (List String) (CodexCandidate × List String)
  resolve_event r all s ds (some c) = ok (c, ds)
  resolve_event r all s ds none = resolve_waiting r all s ds s.pending

  unfoldable pub parse_codex :
      SourceRecord → List StoredRecord → Fields → Result (List String) ParsedRecord
  parse_codex r all fs = do
    let state = apply_contexts (context_records (sort_contexts r.context)) no_state
    let event =
        fact_from_event out.snapshot_hash out.hash out.parse_timestamp r.format state fs r.ordinal
    resolved ← resolve_event r all event.state event.diagnostics event.candidate
    ok (record {
      raw = resolved.0.fact;
      request_id = "";
      diagnostics = resolved.1;
      codex = some resolved.0;
    })

  unfoldable pub parse_pi : SourceRecord → Fields → Result (List String) ParsedRecord
  parse_pi r fs = do
    parsed ← pi_fact out.hash out.parse_timestamp r.format (pi_session r.context "") fs
    ok (record { raw = parsed.0; request_id = ""; diagnostics = parsed.1; codex = none })

  unfoldable pub parse_claude : SourceRecord → Fields → Result (List String) ParsedRecord
  parse_claude r fs = do
    parsed ← claude_fact out.hash out.parse_timestamp r.format "" fs
    settled ← finalize_claude_fact parsed.0
    ok (record {
      raw = settled.0;
      request_id = claude_request_id fs;
      diagnostics = parsed.1 ++ settled.1;
      codex = none;
    })

  -- The parser of the harness.
  unfoldable pub parse_raw :
      SourceRecord → List StoredRecord → Fields → Result (List String) ParsedRecord
  parse_raw r all fs =
      if r.harness == "opencode"
      then parse_opencode r fs
      else if r.harness == "pi"
      then parse_pi r fs
      else if r.harness == "claude-code"
      then parse_claude r fs
      else if r.harness == "codex"
      then parse_codex r all fs
      else err []
