-- ===== src/Processor/Parse/Traced.antt =====
-- What a candidate of `parseEvidence` was made of.
use tokeninsights.Prelude.{
  String, true, List, Option, none, some, ◌≡◌, refl, subst, Bool-cases, inl, inr, string_eq,
}
use tokeninsights.Prelude.Int.{ℤ}
use tokeninsights.Prelude.Results.{Result, err, ok}
use tokeninsights.Publication.{Fact}
use tokeninsights.Publication.Identity.{set_ids}
use tokeninsights.Publication.Validation.{ValidationError, validate_fact, valid_timestamp_ms}
use tokeninsights.Evidence.Json.{Members}
use tokeninsights.Evidence.Sanitize.{decode_object}
use tokeninsights.Processor.Tokens.{token_component_sum}
use tokeninsights.Processor.Outside.{Outside}
use tokeninsights.Processor.Session.{CodexCandidate}
use tokeninsights.Processor.Messages.{components_of}
use tokeninsights.Processor.Claude.{counts_of}
use tokeninsights.Processor.Parse.{
  StoredRecord, ParsedRecord, EvidenceCandidate, native_fields, conflicting_native_aliases,
}
use tokeninsights.Processor.Parse.Raw.{parse_raw}
use tokeninsights.Processor.Parse.Candidate.{
  accepted, code_of, complete_parsed, complete_at, complete_total, fact_of, message_of,
  native_message, parse_evidence, parse_members,
}

not_some : (c : EvidenceCandidate) → Option.none ≡ some c → ⊥
not_some c e = cc

-- The check that lets a candidate pass, and what it then is.
accepted_lem :
    (stored : StoredRecord) (fact : Fact) (code : String) (codex : Option CodexCandidate)
    (check : Option ValidationError) (c : EvidenceCandidate)
    → accepted stored fact code codex check ≡ some c
    → (check ≡ none) × (stored ≡ c.stored) × (fact ≡ c.fact) × (code ≡ c.code)
accepted_lem stored fact code codex (some e) c h = absurd (not_some c h)
accepted_lem stored fact code codex none c h = (refl, cc, cc, cc)

module _ (out : Outside) where
  -- The message of the fact, and the code where it has none of its own.
  abbrev pub named : StoredRecord → ParsedRecord → String × String
  named stored p =
      message_of
        (out.estimate_id stored.source.source_id stored.source.lineage stored.source.ordinal)
        (native_message p.raw.message_id)

  -- A candidate that was made of `p`, parsed from the members `ms`.
  pub record IsCompleted (stored : StoredRecord) (p : ParsedRecord) (ms : Members)
      (c : EvidenceCandidate) : Type 0 where
    pub session : String
    pub at' : ℤ
    pub total : ℤ
    pub is_stored : stored ≡ c.stored
    pub summed : token_component_sum (components_of (counts_of p.raw)) ≡ some total
    pub timely : valid_timestamp_ms at' ≡ true
    pub is_fact :
        set_ids out.tuple_id (fact_of stored.source p session at' (named stored p).0 total) ≡ c.fact
    pub is_code :
        code_of
          (named stored p).1
          p.diagnostics
          stored.source.diagnostics
          (conflicting_native_aliases stored.source.harness ms)
        ≡ c.code
    pub valid : validate_fact out.tuple_id c.fact ≡ none

  total-IsCompleted :
      (stored : StoredRecord) (p : ParsedRecord) (ms : Members) (c : EvidenceCandidate)
      (session : String) (at' : ℤ) (total : Option ℤ)
      → token_component_sum (components_of (counts_of p.raw)) ≡ total
      → valid_timestamp_ms at' ≡ true
      → complete_total out stored p ms session at' total ≡ some c
      → IsCompleted stored p ms c
  total-IsCompleted stored p ms c session at' none summed timely h = absurd (not_some c h)
  total-IsCompleted stored p ms c session at' (some total) summed timely h =
      let (valid, is_stored, is_fact, is_code) = accepted_lem stored _ _ _ _ c h in
      record {
        session = session;
        at' = at';
        total = total;
        is_stored = is_stored;
        summed = summed;
        timely = timely;
        is_fact = is_fact;
        is_code = is_code;
        valid = subst (λ f. validate_fact out.tuple_id f ≡ none) is_fact valid;
      }

  at-IsCompleted :
      (stored : StoredRecord) (p : ParsedRecord) (ms : Members) (c : EvidenceCandidate)
      (session : Option String) (at' : Option ℤ)
      → complete_at out stored p ms session at' ≡ some c
      → IsCompleted stored p ms c
  at-IsCompleted stored p ms c none at' h = absurd (not_some c h)
  at-IsCompleted stored p ms c (some session) none h = absurd (not_some c h)
  at-IsCompleted stored p ms c (some session) (some at') h =
      elim (Bool-cases (valid_timestamp_ms at')) [
        | inl timely ↦ total-IsCompleted stored p ms c session at' _ refl timely (rw timely at h)
        | inr out ↦ absurd (not_some c (rw out at h))
      ]

  -- Where a candidate comes from.
  pub record IsTraced (stored : StoredRecord) (all : List StoredRecord) (c : EvidenceCandidate)
      : Type 0 where
    pub members : Members
    pub parsed : ParsedRecord
    pub decoded : decode_object stored.source.content ≡ ok members
    pub read : parse_raw out stored.source all (native_fields members) ≡ ok parsed
    pub completed : IsCompleted stored parsed members c

  abbrev go_on :
      StoredRecord → Members → Result (List String) ParsedRecord → Option EvidenceCandidate
  go_on stored ms (err ds) = none
  go_on stored ms (ok parsed) = complete_parsed out stored parsed ms

  raw-IsTraced :
      (stored : StoredRecord) (all : List StoredRecord) (c : EvidenceCandidate) (ms : Members)
      (read : Result (List String) ParsedRecord)
      → decode_object stored.source.content ≡ ok ms
      → parse_raw out stored.source all (native_fields ms) ≡ read
      → go_on stored ms read ≡ some c
      → IsTraced stored all c
  unfolding complete_parsed
  raw-IsTraced stored all c ms (err ds) decoded is_read h = absurd (not_some c h)
  raw-IsTraced stored all c ms (ok parsed) decoded is_read h = record {
    members = ms;
    parsed = parsed;
    decoded = decoded;
    read = is_read;
    completed = at-IsCompleted stored parsed ms c parsed.raw.session_id parsed.raw.occurred_at_ms h;
  }

  members-IsTraced :
      (stored : StoredRecord) (all : List StoredRecord) (c : EvidenceCandidate)
      (found : Result String Members)
      → decode_object stored.source.content ≡ found
      → parse_members out stored all found ≡ some c
      → IsTraced stored all c
  members-IsTraced stored all c (err why) is_found h = absurd (not_some c h)
  members-IsTraced stored all c (ok ms) is_found h = raw-IsTraced stored all c ms _ is_found refl h

  pub parse_evidence-IsTraced :
      (stored : StoredRecord) (all : List StoredRecord) (c : EvidenceCandidate)
      → parse_evidence out stored all ≡ some c
      → IsTraced stored all c
  unfolding parse_evidence
  parse_evidence-IsTraced stored all c h = members-IsTraced stored all c _ refl h
