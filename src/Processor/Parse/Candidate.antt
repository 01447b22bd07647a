-- ===== src/Processor/Parse/Candidate.antt =====
-- process.go: the part of `parseEvidence` that makes a fact of what was parsed, and the whole. The hashes, the
-- identity of an estimate and the reading of a timestamp are parameters.
use Prim.Native.String
use tokeninsights.Prelude.{
  codes, String, Bool, false, not, ◌&&◌, ◌||◌, List, [], ◌∷◌, Option, none, some, is_none, ◌==◌,
  string_eq, if◌then◌else◌,
}
use tokeninsights.Prelude.Int.{ℤ}
use tokeninsights.Prelude.Results.{Result, err, ok}
use tokeninsights.Publication.{Fact, Location, SourceRevision, claude_revision_rule}
use tokeninsights.Publication.Identity.{set_ids}
use tokeninsights.Publication.Validation.{ValidationError, valid_timestamp_ms, validate_fact}
use tokeninsights.Evidence.Json.{Members}
use tokeninsights.Evidence.Sanitize.{contains_text, decode_object}
use tokeninsights.Evidence.Records.{Place, SourceRecord}
use tokeninsights.Processor.Tokens.{token_component_sum, int_pointer_value}
use tokeninsights.Processor.Outside.{Outside}
use tokeninsights.Processor.Session.{UsageSnapshot, CodexCandidate}
use tokeninsights.Processor.Messages.{components_of}
use tokeninsights.Processor.Claude.{counts_of}
use tokeninsights.Processor.Canonical.{countable, canonical_provider, canonical_model}
use tokeninsights.Processor.Parse.{
  StoredRecord, ParsedRecord, EvidenceCandidate, native_fields, conflicting_native_aliases,
}
use tokeninsights.Processor.Parse.Raw.{parse_raw}

abbrev pub place_of : Option Place → Option Location
place_of none = none
place_of (some l) = some (record {
  id = "";
  directory_key = l.directory_key;
  directory_name = l.directory_name;
  repository_key = l.repository_key;
  repository_name = l.repository_name;
  repository_source = l.repository_source;
})

-- The revision of a Claude Code fact that names its request.
unfoldable pub revision_of : String → String → ℤ → Option SourceRevision
revision_of harness request at' =
    if harness == "claude-code" && not (request == "")
    then some (record { rule = claude_revision_rule; value = at' })
    else none

abbrev pub native_message : Option String → Option String
native_message none = none
native_message (some s) = if s == "" then none else some s

-- The id of the message, and the code where it is only estimated.
abbrev pub message_of : String → Option String → String × String
message_of estimate none = (String.◌++◌ "estimate:" estimate, "missing_native_identity")
message_of estimate (some s) = (s, "")

unfoldable pub is_doubtful : String → Bool
is_doubtful diagnostic =
    contains_text (codes "negative") (codes diagnostic)
    || (contains_text (codes "invalid") (codes diagnostic)
        || contains_text (codes "inconsistent") (codes diagnostic))

unfoldable pub any_doubtful : List String → Bool
any_doubtful [] = false
any_doubtful (d ∷ ds) = is_doubtful d || any_doubtful ds

unfoldable pub any_fault : List String → Bool
any_fault [] = false
any_fault (d ∷ ds) = not (d == "native_subagent_present") || any_fault ds

-- The code of the candidate: the last of the reasons to doubt it.
unfoldable pub code_of : String → List String → List String → Bool → String
code_of missing diagnostics faults conflicting =
    if conflicting
    then "conflicting_native_fields"
    else if any_fault faults
    then "invalid_source_fields"
    else if any_doubtful diagnostics
    then "invalid_source_counters"
    else missing

unfoldable pub is_complete : Option UsageSnapshot → Bool
is_complete none = false
is_complete (some s) = not (is_none s.input) && (not (is_none s.output) && not (is_none s.total))

abbrev pub judged_codex : String → Option CodexCandidate → Option CodexCandidate
judged_codex code none = none
judged_codex code (some c) = some (record c {
  replay_valid =
      c.replay_valid
      && (is_complete c.snapshot.last && (is_complete c.snapshot.total && code == ""));
})

abbrev pub accepted :
    StoredRecord
    → Fact
    → String
    → Option CodexCandidate
    → Option ValidationError
    → Option EvidenceCandidate
accepted stored fact code codex (some e) = none
accepted stored fact code codex none =
    some (record { stored = stored; fact = fact; code = code; codex = codex })

-- The fact, without its identities.
unfoldable pub fact_of : SourceRecord → ParsedRecord → String → ℤ → String → ℤ → Fact
fact_of r p session at' message total =
    let raw = p.raw in
    let (provider, provider_source) = canonical_provider raw.harness raw.provider in
    let request = if r.harness == "claude-code" then p.request_id else "" in
    record {
      id = "";
      harness = r.harness;
      session = record {
        id = "";
        harness = r.harness;
        native_id = session;
        first_occurred_at_ms = at';
        last_occurred_at_ms = at';
      };
      message = some (record { id = ""; native_id = message; occurred_at_ms = at' });
      native_request_id = request;
      occurred_at_ms = at';
      provider = provider;
      provider_source = provider_source;
      model = canonical_model raw.model provider;
      usage_scope = raw.usage_scope;
      quality = raw.quality;
      countable = countable raw.usage_scope;
      input_tokens = int_pointer_value raw.input_tokens;
      output_tokens = int_pointer_value raw.output_tokens;
      reasoning_tokens = int_pointer_value raw.reasoning_tokens;
      cache_read_tokens = int_pointer_value raw.cache_read_tokens;
      cache_write_tokens = int_pointer_value raw.cache_write_tokens;
      total_tokens = total;
      location = place_of r.location;
      revision = revision_of r.harness request at';
    }

module _ (out : Outside) where
  abbrev pub complete_total :
      StoredRecord → ParsedRecord → Members → String → ℤ → Option ℤ → Option EvidenceCandidate
  complete_total stored p ms session at' none = none
  complete_total stored p ms session at' (some total) =
      let r = stored.source in
      let (message, missing) =
        message_of (out.estimate_id r.source_id r.lineage r.ordinal)
          (native_message p.raw.message_id) in
      let code =
        code_of missing p.diagnostics r.diagnostics (conflicting_native_aliases r.harness ms) in
      let fact = set_ids out.tuple_id (fact_of r p session at' message total) in
      accepted stored fact code (judged_codex code p.codex) (validate_fact out.tuple_id fact)

  abbrev pub complete_at :
      StoredRecord → ParsedRecord → Members → Option String → Option ℤ → Option EvidenceCandidate
  complete_at stored p ms (some session) (some at') =
      if valid_timestamp_ms at'
      then complete_total stored p ms session at'
          (token_component_sum (components_of (counts_of p.raw)))
      else none
  complete_at _ _ _ _ _ = none

  -- What `parseEvidence` makes of a record that was parsed.
  unfoldable pub complete_parsed : StoredRecord → ParsedRecord → Members → Option EvidenceCandidate
  complete_parsed stored p ms = complete_at stored p ms p.raw.session_id p.raw.occurred_at_ms

  abbrev pub parse_members :
      StoredRecord → List StoredRecord → Result String Members → Option EvidenceCandidate
  parse_members stored all (err why) = none
  parse_members stored all (ok ms) = elim (parse_raw out stored.source all (native_fields ms)) [
    | err ds ↦ none
    | ok parsed ↦ complete_parsed stored parsed ms
  ]

  -- `parseEvidence`
  unfoldable pub parse_evidence : StoredRecord → List StoredRecord → Option EvidenceCandidate
  parse_evidence stored all = parse_members stored all (decode_object stored.source.content)
