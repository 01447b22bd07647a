-- ===== src/Processor/Event.antt =====
-- codex.go: what a token count becomes, at once or when its model is known. The hash of a
-- snapshot's JSON text, the hash of a text and the reading of a timestamp are parameters; a
-- diagnostic is its code.
pub mod Pending
use Prim.Native.String
use tokeninsights.Prelude.{
  ℕ, zero, suc, ◌+◌, ◌/◌, ◌%◌, String, Bool, true, false, not, ◌&&◌, ◌||◌, List, [], ◌∷◌, ◌++◌,
  Option, none, some, is_none, ltb, ◌==◌, nat_eq, string_eq, if◌then◌else◌,
}
use tokeninsights.Prelude.Int.{ℤ, pos, negsuc, ltb_ℤ}
use tokeninsights.Prelude.Maps.{Map, lookup}
use tokeninsights.Processor.Json.{JsonValue, Usage, codex_int_field}
use tokeninsights.Processor.Tokens.{
  CodexTokenCounts, CodexTokens, refused, counted, codex_tokens_from_usage,
}
use tokeninsights.Processor.Native.{
  Native, null, other, number, text, object, Fields, end, field, field_of, fields_of, nested,
  string_field, string_value, trim_text,
}
use tokeninsights.Processor.Session.{
  UsageSnapshot, CodexSnapshot, RawTokenFact, CodexCandidate, PendingFact, SessionState, or_else,
  usage_of,
}
use tokeninsights.Processor.Snapshot.{snapshot_from_usage, set_message_id}

-- What `factFromEvent` returns, with the state that it leaves.
pub record EventResult : Type 0 where
  pub state : SessionState
  pub candidate : Option CodexCandidate
  pub diagnostics : List String

abbrev pub skipped : SessionState → List String → EventResult
skipped s diagnostics = record { state = s; candidate = none; diagnostics = diagnostics }

module _ (snapshot_hash : CodexSnapshot → String) where
  -- One turn of the loop of `flushPending`, with a model.
  unfoldable pub resolve_pending : SessionState → CodexCandidate → CodexCandidate
  resolve_pending s c =
      set_message_id snapshot_hash (record c {
        fact = record c.fact { model = s.model };
        turn_id = or_else c.turn_id s.turn_id;
      })

  abbrev pub flush_item : Bool → SessionState → PendingFact → CodexCandidate × List String
  flush_item true s p = (resolve_pending s p.candidate, p.diagnostics)
  flush_item false s p = (p.candidate, p.diagnostics ++ "codex_jsonl_missing_model" ∷ [])

  unfoldable pub flush_items :
      Bool → SessionState → List PendingFact → List CodexCandidate × List String
  flush_items resolved s [] = ([], [])
  flush_items resolved s (p ∷ ps) =
      let (candidate, diagnostics) = flush_item resolved s p in
      let (candidates, more) = flush_items resolved s ps in
      (candidate ∷ candidates, diagnostics ++ more)

  -- `flushPending`
  unfoldable pub flush_pending :
      Bool → SessionState → SessionState × List CodexCandidate × List String
  flush_pending resolved s =
      let (candidates, diagnostics) = flush_items resolved s s.pending in
      (record s { pending = [] }, candidates, diagnostics)

  -- The last step of `factFromEvent`: the candidate, or one that waits for its model.
  abbrev pub await_model : SessionState → CodexCandidate → List String → EventResult
  await_model s c diagnostics =
      if is_none s.model
      then skipped
          (record s {
            pending = s.pending ++ record { candidate = c; diagnostics = diagnostics } ∷ [];
          })
          []
      else record { state = s; candidate = some c; diagnostics = diagnostics }

  module _ (hash : String → String) (parse_timestamp : String → Option ℤ) where
    unfoldable pub candidate_of :
        String
        → SessionState
        → ℤ
        → ℤ
        → CodexTokenCounts
        → Usage
        → Option Usage
        → Option CodexTokenCounts
        → CodexCandidate
    candidate_of kind s at' line tokens last_usage total_usage cumulative =
        let (last, last_valid) = snapshot_from_usage (some last_usage) in
        let (total, total_valid) = snapshot_from_usage total_usage in
        set_message_id snapshot_hash (record {
          fact = record {
            harness = "codex";
            source_id = hash (String.◌++◌ "codex-session:" s.session_id);
            source_kind = kind;
            occurred_at_ms = some at';
            session_id = some s.session_id;
            message_id = none;
            provider = s.provider;
            model = s.model;
            usage_scope = "message";
            quality = "exact";
            input_tokens = tokens.input;
            output_tokens = tokens.output;
            reasoning_tokens = tokens.reasoning;
            cache_read_tokens = tokens.cache_read;
            cache_write_tokens = none;
            total_tokens = none;
          };
          turn_id = s.turn_id;
          line = line;
          snapshot = record { last = last; total = total };
          replay_valid = last_valid && total_valid;
          cumulative = cumulative;
        })

    -- The cumulative counts of the event, if it has them.
    abbrev pub count_total :
        String
        → SessionState
        → ℤ
        → ℤ
        → CodexTokenCounts
        → List String
        → Usage
        → Usage
        → CodexTokens
        → EventResult
    count_total kind s at' line tokens diagnostics last total (refused code) =
        skipped s (diagnostics ++ code ∷ [])
    count_total kind s at' line tokens diagnostics last total (counted cumulative more) =
        await_model s (candidate_of kind s at' line tokens last (some total) (some cumulative))
          (diagnostics ++ more)

    abbrev pub count_cumulative :
        String
        → SessionState
        → ℤ
        → ℤ
        → CodexTokenCounts
        → List String
        → Usage
        → Option Fields
        → EventResult
    count_cumulative kind s at' line tokens diagnostics last none =
        await_model s (candidate_of kind s at' line tokens last none none)
          (diagnostics ++ "codex_jsonl_last_without_total" ∷ [])
    count_cumulative kind s at' line tokens diagnostics last (some total) =
        count_total kind s at' line tokens diagnostics last (usage_of total)
          (codex_tokens_from_usage (usage_of total))

    abbrev pub count_last :
        String → SessionState → ℤ → ℤ → Option Fields → Usage → CodexTokens → EventResult
    count_last kind s at' line total last (refused code) = skipped s (code ∷ [])
    count_last kind s at' line total last (counted tokens diagnostics) =
        count_cumulative kind s at' line tokens diagnostics last total

    abbrev pub count_info : String → SessionState → ℤ → ℤ → Option Fields → EventResult
    count_info kind s at' line none = skipped s ("codex_jsonl_missing_tokens" ∷ [])
    count_info kind s at' line (some info) = elim (nested (some info) "last_token_usage") [
      | none ↦ skipped s ("codex_jsonl_missing_tokens" ∷ [])
      | some last ↦
          count_last kind s at' line (nested (some info) "total_token_usage") (usage_of last)
            (codex_tokens_from_usage (usage_of last))
    ]

    abbrev pub timestamp_of : Option String → Option ℤ
    timestamp_of none = none
    timestamp_of (some s) = parse_timestamp s

    abbrev pub count_timed : String → SessionState → Option ℤ → ℤ → Option Fields → EventResult
    count_timed kind s none line info = skipped s ("codex_jsonl_missing_time" ∷ [])
    count_timed kind s (some at') line info = count_info kind s at' line info

    -- `factFromEvent`; `kind` is that of the source. A missing payload has no type.
    unfoldable pub fact_from_event : String → SessionState → Fields → ℤ → EventResult
    fact_from_event kind s record' line =
        let payload = fields_of (nested (some record') "payload") in
        if string_value payload "" "type" == "task_started"
        then skipped (record s { turn_id = or_else (string_field payload "turn_id") s.turn_id }) []
        else if not (string_value payload "" "type" == "token_count")
        then skipped s []
        else if trim_text s.session_id == ""
        then skipped s ("codex_jsonl_missing_session" ∷ [])
        else count_timed kind s (timestamp_of (string_field record' "timestamp")) line
            (nested (some payload) "info")
