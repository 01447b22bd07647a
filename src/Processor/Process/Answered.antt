-- ===== src/Processor/Process/Answered.antt =====
-- `Process` answers for every record.
use tokeninsights.Prelude.{
  ℕ, suc, ◌+◌, ◌<◌, ◌⊎◌, length, subst, String, Bool, true, false, ◌||◌, List, [], ◌∷◌, Option,
  none, some, map, is_none, ◌≡◌, refl, sym, ap, All, ◌∙◌, arith, ◌==◌, string_eq, eq_iff,
  Bool-cases, Option-cases, inl, inr, if◌then◌else◌,
}
use tokeninsights.Prelude.Maps.{Map, lookup, insert, lookup-insert}
use tokeninsights.Evidence.Scope.{usage_record}
use tokeninsights.Processor.Outside.{Outside}
use tokeninsights.Processor.Replay.{CodexItem}
use tokeninsights.Processor.Ancestry.{contains}
use tokeninsights.Processor.Ancestry.Ended.{resolve_codex_evidence_ends_lem}
use tokeninsights.Processor.Select.{Outcome, Settlement}
use tokeninsights.Processor.Parse.{StoredRecord, EvidenceCandidate}
use tokeninsights.Processor.Parse.Candidate.{parse_evidence}
use tokeninsights.Processor.Parse.Traced.{parse_evidence-IsTraced}
use tokeninsights.Processor.Process.{
  Verdict, background, unusable, usable, candidates_of, note_outcome, note_outcomes, first_outcome,
  note_verdict, note_verdicts, resolved_candidates, item_named, outcomes_for, verdict_of, verdicts,
  parsed_verdict, settle_all, projection, process, process_records, processed_as, is_cancelled,
  cancelled, projected, items_among, entries_among, all_items,
}
use tokeninsights.Processor.Process.Noted.{or_false, ids_of, outcome_ids, settled_ids}

-- Every outcome stands under the id of its record.
abbrev IsNamed : Map Outcome → Type 0
IsNamed m = (k : String) (o : Outcome) → lookup k m ≡ some o → o.evidence_id ≡ k

some_inj : (a b : Outcome) → some a ≡ some b → a ≡ b
some_inj a b e = cc

note_outcome-IsNamed : (o : Outcome) (m : Map Outcome) → IsNamed m → IsNamed (note_outcome o m)
note_outcome-IsNamed o m h k p e =
    let found : lookup k (insert o.evidence_id o m)
        ≡ (if o.evidence_id == k then some o else lookup k m) =
      lookup-insert o.evidence_id k o m in
    elim (Bool-cases (o.evidence_id == k)) [
      | inl same ↦
          ap (λ x. x.evidence_id) (some_inj p o (sym e ∙ (rw same at found)))
          ∙ (eq_iff o.evidence_id k).0 same
      | inr apart ↦ h k p (sym (rw apart at found) ∙ e)
    ]

empty-IsNamed : IsNamed []
unfolding lookup
empty-IsNamed k o e = absurd (apart o e)
  where
    apart : (o : Outcome) → Option.none ≡ some o → ⊥
    apart o e = cc

-- Whether the map has an outcome for the record.
abbrev there : String → Map Outcome → Bool
there id m = if is_none (lookup id m) then false else true

there-note_outcome :
    (id : String) (o : Outcome) (m : Map Outcome)
    → there id (note_outcome o m) ≡ ((o.evidence_id == id) || there id m)
there-note_outcome id o m = ground (arith, lookup-insert o.evidence_id id o m)

note_outcomes-IsNamed :
    (os : List Outcome) (m : Map Outcome) → IsNamed m → IsNamed (note_outcomes os m)
unfolding note_outcomes
note_outcomes-IsNamed [] m h = h
note_outcomes-IsNamed (o ∷ os) m h =
    note_outcomes-IsNamed os (note_outcome o m) (note_outcome-IsNamed o m h)

there-note_outcomes :
    (id : String) (os : List Outcome) (m : Map Outcome)
    → there id (note_outcomes os m) ≡ (contains id (outcome_ids os) || there id m)
unfolding note_outcomes contains
there-note_outcomes id [] m = refl
there-note_outcomes id (o ∷ os) m =
    ground (arith, there-note_outcomes id os (note_outcome o m), there-note_outcome id o m)

-- The records without a candidate, and those of all verdicts.
abbrev plain_ids : List Verdict → List String
plain_ids [] = []
plain_ids (background id ∷ vs) = id ∷ plain_ids vs
plain_ids (unusable id ∷ vs) = id ∷ plain_ids vs
plain_ids (usable c ∷ vs) = plain_ids vs

abbrev verdict_id : Verdict → String
verdict_id (background id) = id
verdict_id (unusable id) = id
verdict_id (usable c) = c.stored.id

abbrev candidate_ids : List EvidenceCandidate → List String
candidate_ids cs = map (λ c. c.stored.id) cs

note_verdict-IsNamed : (v : Verdict) (m : Map Outcome) → IsNamed m → IsNamed (note_verdict v m)
note_verdict-IsNamed (background id) m h = note_outcome-IsNamed _ m h
note_verdict-IsNamed (unusable id) m h = note_outcome-IsNamed _ m h
note_verdict-IsNamed (usable c) m h = h

note_verdicts-IsNamed :
    (vs : List Verdict) (m : Map Outcome) → IsNamed m → IsNamed (note_verdicts vs m)
unfolding note_verdicts
note_verdicts-IsNamed [] m h = h
note_verdicts-IsNamed (v ∷ vs) m h =
    note_verdicts-IsNamed vs (note_verdict v m) (note_verdict-IsNamed v m h)

there-note_verdicts :
    (id : String) (vs : List Verdict) (m : Map Outcome)
    → there id (note_verdicts vs m) ≡ (contains id (plain_ids vs) || there id m)
unfolding note_verdicts contains
there-note_verdicts id [] m = refl
there-note_verdicts id (background key ∷ vs) m = ground (
  arith,
  there-note_verdicts id vs (note_verdict (background key) m),
  there-note_outcome id (first_outcome key "context" "") m,
)
there-note_verdicts id (unusable key ∷ vs) m = ground (
  arith,
  there-note_verdicts id vs (note_verdict (unusable key) m),
  there-note_outcome id (first_outcome key "ambiguous" "unusable_usage") m,
)
there-note_verdicts id (usable c ∷ vs) m = there-note_verdicts id vs m

contains-candidates :
    (id : String) (vs : List Verdict)
    → contains id (map verdict_id vs)
      ≡ (contains id (candidate_ids (candidates_of vs)) || contains id (plain_ids vs))
unfolding contains
contains-candidates id [] = refl
contains-candidates id (background key ∷ vs) = ground (arith, contains-candidates id vs)
contains-candidates id (unusable key ∷ vs) = ground (arith, contains-candidates id vs)
contains-candidates id (usable c ∷ vs) = ground (arith, contains-candidates id vs)

resolved_ids :
    (items : List CodexItem) (cs : List EvidenceCandidate)
    → ids_of (resolved_candidates items cs) ≡ candidate_ids cs
unfolding resolved_candidates
resolved_ids items [] = refl
resolved_ids items (c ∷ cs) = elim (Option-cases (item_named c.stored.id items)) [
  | inl missing ↦ rw missing (ap (λ r. c.stored.id ∷ r) (resolved_ids items cs))
  | inr (i, found) ↦ rw found (ap (λ r. c.stored.id ∷ r) (resolved_ids items cs))
]

outcomes_for_lem :
    (m : Map Outcome) (rs : List StoredRecord)
    → IsNamed m
    → All (λ s. there s.id m ≡ true) rs
    → outcome_ids (outcomes_for m rs) ≡ map (λ s. s.id) rs
unfolding outcomes_for
outcomes_for_lem m [] h k = refl
outcomes_for_lem m (s ∷ rs) h (p, k) = elim (Option-cases (lookup s.id m)) [
  | inl missing ↦ absurd (apart (rw missing at p))
  | inr (o, found) ↦ rw found (cc (h s.id o found, outcomes_for_lem m rs h k))
]
  where
    apart : false ≡ true → ⊥
    apart e = cc

own_ids :
    (rs : List StoredRecord) (held : String → Bool)
    → ((id : String) → contains id (map (λ s. s.id) rs) ≡ true → held id ≡ true)
    → All (λ s. held s.id ≡ true) rs
unfolding contains
own_ids [] held h = tt
own_ids (s ∷ rs) held h =
    (h s.id (ground (arith, eq_iff s.id s.id)), own_ids rs held (λ id k. h id (ground (arith, k))))

module _ (out : Outside) where
  parsed_id :
      (s : StoredRecord) (every : List StoredRecord) (found : Option EvidenceCandidate)
      → parse_evidence out s every ≡ found
      → verdict_id (parsed_verdict s.id found) ≡ s.id
  parsed_id s every none e = refl
  parsed_id s every (some c) e =
      let t = parse_evidence-IsTraced out s every c e in ap (λ x. x.id) (sym t.completed.is_stored)

  verdict_of_id :
      (every : List StoredRecord) (s : StoredRecord) → verdict_id (verdict_of out every s) ≡ s.id
  unfolding verdict_of
  verdict_of_id every s =
      elim (Bool-cases (usage_record s.source.harness s.source.format s.source.content)) [
        | inl usage ↦ rw usage (parsed_id s every _ refl)
        | inr other ↦ rw other refl
      ]

  verdict_ids :
      (every rs : List StoredRecord) → map verdict_id (verdicts out every rs) ≡ map (λ s. s.id) rs
  unfolding verdicts
  verdict_ids every [] = refl
  verdict_ids every (s ∷ rs) = cc (verdict_of_id every s, verdict_ids every rs)

  there_lem :
      (rs : List StoredRecord) (items : List CodexItem) (id : String)
      → there id (
          note_outcomes
            (settle_all out items (candidates_of (verdicts out rs rs))).outcomes
            (note_verdicts (verdicts out rs rs) []))
        ≡ contains id (map (λ s. s.id) rs)
  unfolding settle_all lookup
  there_lem rs items id =
      let vs = verdicts out rs rs in
      let cs = candidates_of vs in
      there-note_outcomes id _ (note_verdicts vs [])
      ∙ ap (λ r. r || there id (note_verdicts vs []))
          (settled_ids out.json_hash id (resolved_candidates items cs)
            ∙ ap (contains id) (resolved_ids items cs))
      ∙ ap (λ r. contains id (candidate_ids cs) || r)
          (there-note_verdicts id vs [] ∙ or_false (contains id (plain_ids vs)))
      ∙ sym (contains-candidates id vs)
      ∙ ap (contains id) (verdict_ids rs rs)

  -- Where the outcomes of the settled groups and those of the other records are noted, every record has one.
  all_there :
      (rs : List StoredRecord) (items : List CodexItem)
      → All
          (λ s.
            there s.id (
              note_outcomes
                (settle_all out items (candidates_of (verdicts out rs rs))).outcomes
                (note_verdicts (verdicts out rs rs) []))
            ≡ true)
          rs
  all_there rs items = own_ids rs _ (λ id h. there_lem rs items id ∙ h)

  process_records-answers :
      (records : List StoredRecord)
      → (p : Settlement) × (process_records out records ≡ some p)
        × (outcome_ids p.outcomes ≡ map (λ s. s.id) records)
  unfolding process_records lookup
  process_records-answers records =
      let vs = verdicts out records records in
      let (a, e, _) =
        resolve_codex_evidence_ends_lem out.proof_hash (entries_among records)
          (items_among (candidates_of vs)) in
      let m =
        note_outcomes (settle_all out (all_items a.sessions) (candidates_of vs)).outcomes
          (note_verdicts vs []) in
      let named : IsNamed m =
        note_outcomes-IsNamed _ _ (note_verdicts-IsNamed vs [] empty-IsNamed) in
      (
        _,
        ap (projection out records vs) e,
        outcomes_for_lem m records named (all_there records (all_items a.sessions)),
      )

  cancelled_at :
      (done : ℕ → Bool) (turn : ℕ) (records : List StoredRecord)
      → is_cancelled done turn records ≡ true
      → (n : ℕ) × (n < length records) × (done (turn + n) ≡ true)
  unfolding is_cancelled
  cancelled_at done turn [] h = cc
  cancelled_at done turn (s ∷ rest) h = elim (Bool-cases (done turn)) [
    | inl e ↦ (0, omega arith, subst (λ k. done k ≡ true) (next_turn turn 0) e)
    | inr e ↦
        let (n, lt, at) = cancelled_at done (suc turn) rest (rw e at h) in
        (suc n, omega arith, subst (λ k. done k ≡ true) (later_turn turn n) at)
  ]
    where
      next_turn : (t n : ℕ) → t ≡ t + 0
      next_turn t n = omega arith

      later_turn : (t n : ℕ) → suc t + n ≡ t + suc n
      later_turn t n = omega arith

  -- Only a context that is done has its error returned.
  pub process-cancelled :
      (done : ℕ → Bool) (records : List StoredRecord)
      → process out done records ≡ cancelled
      → is_cancelled done 0 records ≡ true
  unfolding process
  process-cancelled done records h = elim (Bool-cases (is_cancelled done 0 records)) [
    | inl e ↦ e
    | inr e ↦ absurd (not_cancelled (process_records out records) (rw e at h))
  ]
    where
      not_cancelled : (o : Option Settlement) → processed_as o ≡ cancelled → ⊥
      not_cancelled none k = cc
      not_cancelled (some p) k = cc

  -- `Process` ends, whatever the records. If its context is done at the check before one of them, it ends with the error
  -- of the context, and otherwise with an outcome for each record, in their order.
  pub process-answers :
      (done : ℕ → Bool) (records : List StoredRecord)
      → ((turn : ℕ) × (turn < length records)
          × (done turn ≡ true)
          × (process out done records ≡ cancelled))
        ⊎ ((is_cancelled done 0 records ≡ false)
            × (p : Settlement) × (process out done records ≡ projected p)
            × (outcome_ids p.outcomes ≡ map (λ s. s.id) records))
  unfolding process
  process-answers done records = elim (Bool-cases (is_cancelled done 0 records)) [
    | inl e ↦
        let (turn, lt, at) = cancelled_at done 0 records e in
        inl (turn, lt, subst (λ k. done k ≡ true) (from_start turn) at, rw e refl)
    | inr e ↦
        let (p, made, answered) = process_records-answers records in
        inr (e, p, rw (e, made) refl, answered)
  ]
    where
      from_start : (t : ℕ) → 0 + t ≡ t
      from_start t = omega arith
