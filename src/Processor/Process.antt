-- ===== src/Processor/Process.antt =====
-- process.go: `Process`, from stored records to contributions, estimates and outcomes. The ids of stored records
-- differ. The hashes, the identity of an estimate and the reading of a timestamp are parameters.
pub mod Noted
pub mod Answered
pub mod Settling
pub mod Published
mod Examples
use tokeninsights.Prelude.{
  ℕ, zero, suc, codes, String, Bool, true, false, not, ◌&&◌, ◌||◌, List, [], ◌∷◌, ◌++◌, Option,
  none, some, ◌==◌, string_eq, if◌then◌else◌,
}
use tokeninsights.Prelude.Int.{ℤ}
use tokeninsights.Prelude.Maps.{Map, lookup, insert}
use tokeninsights.Publication.{Fact}
use tokeninsights.CollectorProgress.Snapshot.{codes_lt}
use tokeninsights.Evidence.Json.{Json}
use tokeninsights.Evidence.Records.{NativeContext, SourceRecord}
use tokeninsights.Evidence.Scope.{usage_record}
use tokeninsights.Processor.Outside.{Outside}
use tokeninsights.Processor.Session.{CodexSnapshot, CodexCandidate}
use tokeninsights.Processor.Replay.{CodexItem}
use tokeninsights.Processor.Ancestry.{Entry, Ancestry, resolve_codex_evidence}
use tokeninsights.Processor.Select.{
  Candidate, Outcome, Contribution, Estimate, Settlement, settle_group,
}
use tokeninsights.Processor.Parse.{StoredRecord, EvidenceCandidate}
use tokeninsights.Processor.Parse.Raw.{decoded_fields, fields_or_end}
use tokeninsights.Processor.Parse.Candidate.{parse_evidence}

-- What a record is to `Process`.
pub data Verdict : Type 0 where
  background : String → Verdict
  unusable : String → Verdict
  usable : EvidenceCandidate → Verdict

-- A projection is a settlement of all groups, with the outcomes in the order of the records.
abbrev pub no_settlement : Settlement
no_settlement = record { outcomes = []; contributions = []; estimates = [] }

abbrev pub candidates_of : List Verdict → List EvidenceCandidate
candidates_of [] = []
candidates_of (usable c ∷ vs) = c ∷ candidates_of vs
candidates_of (background id ∷ vs) = candidates_of vs
candidates_of (unusable id ∷ vs) = candidates_of vs

-- The outcome of a record without a candidate.
abbrev pub first_outcome : String → String → String → Outcome
first_outcome id disposition code = record {
  evidence_id = id;
  fact_id = "";
  disposition = disposition;
  code = code;
}

abbrev pub note_outcome : Outcome → Map Outcome → Map Outcome
note_outcome o m = insert o.evidence_id o m

abbrev pub note_verdict : Verdict → Map Outcome → Map Outcome
note_verdict (background id) m = note_outcome (first_outcome id "context" "") m
note_verdict (unusable id) m = note_outcome (first_outcome id "ambiguous" "unusable_usage") m
note_verdict (usable c) m = m

unfoldable pub note_verdicts : List Verdict → Map Outcome → Map Outcome
note_verdicts [] m = m
note_verdicts (v ∷ vs) m = note_verdicts vs (note_verdict v m)

unfoldable pub note_outcomes : List Outcome → Map Outcome → Map Outcome
note_outcomes [] m = m
note_outcomes (o ∷ os) m = note_outcomes os (note_outcome o m)

-- The items of Codex among the candidates.
abbrev pub add_item : EvidenceCandidate → Option CodexCandidate → List CodexItem → List CodexItem
add_item c none items = items
add_item c (some codex) items =
    record {
      evidence_id = c.stored.id;
      ordinal = c.stored.source.ordinal;
      fact = c.fact;
      code = c.code;
      codex = codex;
    }
    ∷ items

unfoldable pub items_among : List EvidenceCandidate → List CodexItem
items_among [] = []
items_among (c ∷ cs) = add_item c c.codex (items_among cs)

abbrev pub entry_of : Option Json → List String → Entry
entry_of content diagnostics = record {
  data' = fields_or_end (decoded_fields content);
  diagnostics = diagnostics;
}

abbrev pub context_entries : List NativeContext → List Entry
context_entries [] = []
context_entries (c ∷ cs) = entry_of c.content c.diagnostics ∷ context_entries cs

-- The records and contexts of Codex.
unfoldable pub entries_among : List StoredRecord → List Entry
entries_among [] = []
entries_among (s ∷ rest) =
    let later = entries_among rest in
    let r = s.source in
    if r.harness == "codex"
    then entry_of r.content r.diagnostics ∷ (context_entries r.context ++ later)
    else later

unfoldable pub item_named : String → List CodexItem → Option CodexItem
item_named id [] = none
item_named id (i ∷ is) =
    let later = item_named id is in if i.evidence_id == id then some i else later

unfoldable pub all_items : Map (List CodexItem) → List CodexItem
all_items [] = []
all_items ((session, items) ∷ rest) = items ++ all_items rest

abbrev pub resolved_as : EvidenceCandidate → Option CodexItem → Candidate
resolved_as c none = record {
  evidence_id = c.stored.id;
  format = c.stored.source.format;
  fact = c.fact;
  code = c.code;
}
resolved_as c (some i) = record {
  evidence_id = c.stored.id;
  format = c.stored.source.format;
  fact = i.fact;
  code = i.code;
}

-- The candidates as `resolveCodexEvidence` leaves them.
unfoldable pub resolved_candidates : List CodexItem → List EvidenceCandidate → List Candidate
resolved_candidates items [] = []
resolved_candidates items (c ∷ cs) =
    resolved_as c (item_named c.stored.id items) ∷ resolved_candidates items cs

abbrev pub group_or_none : Option (List Candidate) → List Candidate
group_or_none none = []
group_or_none (some cs) = cs

-- The candidates by the ids of their facts.
unfoldable pub group_candidates : List Candidate → Map (List Candidate) → Map (List Candidate)
group_candidates [] m = m
group_candidates (c ∷ cs) m =
    group_candidates cs (insert c.fact.id (group_or_none (lookup c.fact.id m) ++ c ∷ []) m)

unfoldable pub place_group : String → List Candidate → Map (List Candidate) → Map (List Candidate)
place_group id group [] = (id, group) ∷ []
place_group id group ((other, cs) ∷ rest) =
    let later = place_group id group rest in
    if codes_lt (codes other) (codes id)
    then (other, cs) ∷ later
    else (id, group) ∷ (other, cs) ∷ rest

-- The groups in the order of their ids.
unfoldable pub sort_groups : Map (List Candidate) → Map (List Candidate)
sort_groups [] = []
sort_groups ((id, group) ∷ rest) = place_group id group (sort_groups rest)

abbrev pub no_outcome : Outcome
no_outcome = record { evidence_id = ""; fact_id = ""; disposition = ""; code = "" }

abbrev pub outcome_or_zero : Option Outcome → Outcome
outcome_or_zero none = no_outcome
outcome_or_zero (some o) = o

unfoldable pub outcomes_for : Map Outcome → List StoredRecord → List Outcome
outcomes_for m [] = []
outcomes_for m (s ∷ rest) = outcome_or_zero (lookup s.id m) ∷ outcomes_for m rest

module _ (json_hash : Fact → String) where
  unfoldable pub settle_groups : Map (List Candidate) → Settlement
  settle_groups [] = no_settlement
  settle_groups ((id, group) ∷ rest) =
      let s = settle_group json_hash id group in
      let later = settle_groups rest in
      record {
        outcomes = s.outcomes ++ later.outcomes;
        contributions = s.contributions ++ later.contributions;
        estimates = s.estimates ++ later.estimates;
      }

-- The context's error, with which `Process` returns an empty projection, or the projection of all records, if any.
pub data Processed : Type 0 where
  cancelled unresolved : Processed
  projected : Settlement → Processed

abbrev pub processed_as : Option Settlement → Processed
processed_as none = unresolved
processed_as (some p) = projected p

-- Whether the context is done at a check of the first loop, from this turn on.
unfoldable pub is_cancelled : (ℕ → Bool) → ℕ → List StoredRecord → Bool
is_cancelled done turn [] = false
is_cancelled done turn (s ∷ rest) = done turn || is_cancelled done (suc turn) rest

abbrev pub parsed_verdict : String → Option EvidenceCandidate → Verdict
parsed_verdict id none = unusable id
parsed_verdict id (some c) = usable c

module _ (out : Outside) where
  -- The first loop, of one record.
  unfoldable pub verdict_of : List StoredRecord → StoredRecord → Verdict
  verdict_of all s =
      let found = parse_evidence out s all in
      if usage_record s.source.harness s.source.format s.source.content
      then parsed_verdict s.id found
      else background s.id

  unfoldable pub verdicts : List StoredRecord → List StoredRecord → List Verdict
  verdicts all [] = []
  verdicts all (s ∷ rest) = verdict_of all s ∷ verdicts all rest

  -- The groups of the candidates, settled in the order of the ids.
  unfoldable pub settle_all : List CodexItem → List EvidenceCandidate → Settlement
  settle_all items cs =
      settle_groups out.json_hash (sort_groups (group_candidates (resolved_candidates items cs) []))

  abbrev pub projection : List StoredRecord → List Verdict → Option Ancestry → Option Settlement
  projection records vs none = none
  projection records vs (some a) =
      let s = settle_all (all_items a.sessions) (candidates_of vs) in
      some (record s {
        outcomes = outcomes_for (note_outcomes s.outcomes (note_verdicts vs [])) records;
      })

  -- What `Process` makes of all records; none only if the ancestry of the sessions were not resolved.
  unfoldable pub process_records : List StoredRecord → Option Settlement
  process_records records =
      let vs = verdicts records records in
      projection records vs (
        resolve_codex_evidence out.proof_hash (entries_among records)
          (items_among (candidates_of vs)))

  -- `Process`; `done` is whether the context is done at the check before each record.
  unfoldable pub process : (ℕ → Bool) → List StoredRecord → Processed
  process done records =
      if is_cancelled done 0 records then cancelled else processed_as (process_records records)
