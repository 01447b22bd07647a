-- ===== src/Processor/Parse/Certain.antt =====
-- What the candidates of `parseEvidence` promise.
use tokeninsights.Prelude.{
  String, Bool, true, false, List, Option, none, some, ◌≡◌, refl, sym, ap, ◌∙◌, Bool-cases, inl,
  inr, string_eq, ◌==◌, subst, All,
}
use tokeninsights.Prelude.Results.{ok}
use tokeninsights.Publication.Identity.{set_ids, native_id_of, set_message}
use tokeninsights.Publication.Validation.Facts.{IsPublished, validate_fact-IsPublished}
use tokeninsights.Evidence.Json.{Members}
use tokeninsights.Evidence.Sanitize.{decode_object}
use tokeninsights.Processor.Tokens.{token_component_sum}
use tokeninsights.Processor.Outside.{Outside}
use tokeninsights.Processor.Messages.{components_of}
use tokeninsights.Processor.Claude.{counts_of}
use tokeninsights.Processor.Parse.{
  StoredRecord, ParsedRecord, EvidenceCandidate, native_fields, conflicting_native_aliases,
  alias_groups,
}
use tokeninsights.Processor.Parse.Raw.{parse_raw}
use tokeninsights.Processor.Parse.Doubt.{
  IsUndoubted, AreAlike, named_values, any_doubtful-IsUndoubted, any_fault_lem,
  any_group_conflicts-AreAlike,
}
use tokeninsights.Processor.Parse.Candidate.{
  any_doubtful, any_fault, code_of, fact_of, message_of, native_message, parse_evidence,
}
use tokeninsights.Processor.Parse.Traced.{parse_evidence-IsTraced}

-- A code that is empty has no reason.
code_of_lem :
    (missing : String) (diagnostics faults : List String) (conflicting : Bool)
    → code_of missing diagnostics faults conflicting ≡ ""
    → (conflicting ≡ false)
      × (any_fault faults ≡ false)
      × (any_doubtful diagnostics ≡ false)
      × (missing ≡ "")
unfolding code_of
code_of_lem missing diagnostics faults true h = absurd (cc)
code_of_lem missing diagnostics faults false h = elim (Bool-cases (any_fault faults)) [
  | inl fault ↦ absurd (apart_fields (rw fault at h))
  | inr clean ↦ elim (Bool-cases (any_doubtful diagnostics)) [
    | inl doubt ↦ absurd (apart_counters (rw (clean, doubt) at h))
    | inr sure ↦ (refl, clean, sure, rw (clean, sure) at h)
  ]
]
  where
    apart_fields : ◌≡◌ {A = String} "invalid_source_fields" "" → ⊥
    apart_fields e = cc

    apart_counters : ◌≡◌ {A = String} "invalid_source_counters" "" → ⊥
    apart_counters e = cc

named_message :
    (estimate : String) (native : Option String)
    → (message_of estimate native).1 ≡ ""
    → native ≡ some (message_of estimate native).0
named_message estimate none h = absurd cc
named_message estimate (some s) h = refl

native_message_lem :
    (native : Option String) (s : String)
    → native_message native ≡ some s
    → (native ≡ some s) × ((s == "") ≡ false)
native_message_lem none s h = cc
native_message_lem (some m) s h = elim (Bool-cases (m == "")) [
  | inl empty ↦ absurd (missing (rw empty at h))
  | inr given ↦
      let same : some m ≡ some s = rw given at h in
      (same, subst (λ o. (or_empty o == "") ≡ false) same given)
]
  where
    missing : none ≡ some s → ⊥
    missing e = cc

    or_empty : Option String → String
    or_empty none = ""
    or_empty (some t) = t

module _ (out : Outside) where
  -- The fact is as it is published, of the harness of its record, and its total is the sum of the counts
  -- that its parser read.
  pub record IsProved (stored : StoredRecord) (all : List StoredRecord) (c : EvidenceCandidate)
      : Type 0 where
    pub members : Members
    pub parsed : ParsedRecord
    pub decoded : decode_object stored.source.content ≡ ok members
    pub read : parse_raw out stored.source all (native_fields members) ≡ ok parsed
    pub published : IsPublished out.tuple_id c.fact
    pub same_harness : c.fact.harness ≡ stored.source.harness
    pub summed :
        token_component_sum (components_of (counts_of parsed.raw)) ≡ some c.fact.total_tokens

  -- There is nothing to doubt in the record and in what its parser reported, and the message of the fact has the id that
  -- the record names.
  pub record IsCertain (stored : StoredRecord) (all : List StoredRecord) (c : EvidenceCandidate)
      : Type 0 where
    pub members : Members
    pub parsed : ParsedRecord
    pub decoded : decode_object stored.source.content ≡ ok members
    pub read : parse_raw out stored.source all (native_fields members) ≡ ok parsed
    pub agreed :
        All (λ group. AreAlike (named_values members group)) (alias_groups stored.source.harness)
    pub clean : All (λ d. d ≡ "native_subagent_present") stored.source.diagnostics
    pub counted : All IsUndoubted parsed.diagnostics
    pub native : parsed.raw.message_id ≡ some (native_id_of out.tuple_id c.fact.message)
    pub named : (native_id_of out.tuple_id c.fact.message == "") ≡ false

  -- The candidate of a record has a fact as facts are published, of the harness of the record, with the total
  -- that the counts which were parsed from the record add up to.
  pub parse_evidence-IsProved :
      (stored : StoredRecord) (all : List StoredRecord) (c : EvidenceCandidate)
      → parse_evidence out stored all ≡ some c
      → IsProved stored all c
  unfolding set_ids fact_of
  parse_evidence-IsProved stored all c h =
      let t = parse_evidence-IsTraced out stored all c h in
      let d = t.completed in
      record {
        members = t.members;
        parsed = t.parsed;
        decoded = t.decoded;
        read = t.read;
        published = validate_fact-IsPublished out.tuple_id c.fact d.valid;
        same_harness = sym (ap (λ f. f.harness) d.is_fact);
        summed = d.summed ∙ ap (λ f. some f.total_tokens) d.is_fact;
      }

  -- The candidate of a record has no code only where nothing is in doubt: all values that the record has under the names
  -- of one field are the same, its own diagnostics say no more than that a subagent is there, no diagnostic of the
  -- parser mentions anything negative, invalid or inconsistent, and the message of the fact has the id that the record
  -- names, which is not empty.
  pub parse_evidence-IsCertain :
      (stored : StoredRecord) (all : List StoredRecord) (c : EvidenceCandidate)
      → parse_evidence out stored all ≡ some c
      → c.code ≡ ""
      → IsCertain stored all c
  unfolding set_ids fact_of set_message conflicting_native_aliases
  parse_evidence-IsCertain stored all c h sure =
      let t = parse_evidence-IsTraced out stored all c h in
      let d = t.completed in
      let (agreed, clean, counted, missing) = code_of_lem _ _ _ _ (d.is_code ∙ sure) in
      let named = native_message_lem t.parsed.raw.message_id _ (
        named_message _ (native_message t.parsed.raw.message_id) missing
        ∙ ap (λ f. some (native_id_of out.tuple_id f.message)) d.is_fact) in
      record {
        members = t.members;
        parsed = t.parsed;
        decoded = t.decoded;
        read = t.read;
        agreed = any_group_conflicts-AreAlike t.members _ agreed;
        clean = any_fault_lem _ clean;
        counted = any_doubtful-IsUndoubted _ counted;
        native = named.0;
        named = named.1;
      }
