-- ===== src/Processor/Process/Published.antt =====
-- What `Process` publishes is as facts are published.
use tokeninsights.Prelude.{
  ℕ, Bool, List, [], ◌∷◌, Option, none, some, ◌≡◌, refl, subst, All, Bool-cases, Option-cases, inl,
  inr,
}
use tokeninsights.Publication.Validation.Facts.{IsPublished}
use tokeninsights.Evidence.Scope.{usage_record}
use tokeninsights.Processor.Outside.{Outside}
use tokeninsights.Processor.Ancestry.{Ancestry, resolve_codex_evidence}
use tokeninsights.Processor.Ancestry.Facts.{resolve_codex_evidence-SessionsHold}
use tokeninsights.Processor.Select.{Settlement}
use tokeninsights.Processor.Parse.{StoredRecord}
use tokeninsights.Processor.Parse.Candidate.{parse_evidence}
use tokeninsights.Processor.Parse.Certain.{parse_evidence-IsProved}
use tokeninsights.Processor.Process.{
  Verdict, background, unusable, usable, candidates_of, verdict_of, verdicts, settle_all,
  projection, process, process_records, processed_as, is_cancelled, cancelled, projected,
  items_among, entries_among,
}
use tokeninsights.Processor.Process.Settling.{
  SettlementHolds, items_among-hold, all_items-hold, resolved_candidates-hold, settled-hold,
}

module _ (out : Outside) where
  abbrev VerdictHolds : Verdict → Type 0
  VerdictHolds (usable c) = IsPublished out.tuple_id c.fact
  VerdictHolds (background id) = Unit
  VerdictHolds (unusable id) = Unit

  verdict_of-VerdictHolds :
      (every : List StoredRecord) (s : StoredRecord) → VerdictHolds (verdict_of out every s)
  unfolding verdict_of
  verdict_of-VerdictHolds every s =
      elim (Bool-cases (usage_record s.source.harness s.source.format s.source.content)) [
        | inr other ↦ rw other tt
        | inl usage ↦ elim (Option-cases (parse_evidence out s every)) [
          | inl refused ↦ rw (usage, refused) tt
          | inr (c, found) ↦
              rw (usage, found) (parse_evidence-IsProved out s every c found).published
        ]
      ]

  verdicts-VerdictHolds : (every rs : List StoredRecord) → All VerdictHolds (verdicts out every rs)
  unfolding verdicts
  verdicts-VerdictHolds every [] = tt
  verdicts-VerdictHolds every (s ∷ rs) =
      (verdict_of-VerdictHolds every s, verdicts-VerdictHolds every rs)

  candidates_of-hold :
      (vs : List Verdict)
      → All VerdictHolds vs
      → All (λ c. IsPublished out.tuple_id c.fact) (candidates_of vs)
  candidates_of-hold [] h = tt
  candidates_of-hold (usable c ∷ vs) (p, h) = (p, candidates_of-hold vs h)
  candidates_of-hold (background id ∷ vs) (p, h) = candidates_of-hold vs h
  candidates_of-hold (unusable id ∷ vs) (p, h) = candidates_of-hold vs h

  some_inj : (a b : Settlement) → some a ≡ some b → a ≡ b
  some_inj a b e = cc

  not_some : (b : Settlement) → Option.none ≡ some b → ⊥
  not_some b e = cc

  projection-SettlementHolds :
      (records : List StoredRecord) (vs : List Verdict) (resolved : Option Ancestry)
      (p : Settlement)
      → All VerdictHolds vs
      → resolve_codex_evidence out.proof_hash
          (entries_among records)
          (items_among (candidates_of vs))
        ≡ resolved
      → projection out records vs resolved ≡ some p
      → SettlementHolds (IsPublished out.tuple_id) p
  unfolding settle_all
  projection-SettlementHolds records vs none p h e k = absurd (not_some p k)
  projection-SettlementHolds records vs (some a) p h e k =
      let candidates = candidates_of-hold vs h in
      let items = items_among-hold (IsPublished out.tuple_id) _ candidates in
      let sessions =
        resolve_codex_evidence-SessionsHold (IsPublished out.tuple_id) out.proof_hash
          (entries_among records) _ a items e in
      let settled = settled-hold (IsPublished out.tuple_id) out.json_hash _ (
        resolved_candidates-hold (IsPublished out.tuple_id) _ _
          (all_items-hold (IsPublished out.tuple_id) a.sessions sessions) candidates) in
      subst (SettlementHolds (IsPublished out.tuple_id)) (some_inj _ p k)
        (record { contributed = settled.contributed; estimated = settled.estimated })

  -- Every fact that `Process` counts or estimates is as facts are published, also where it is the fact of an
  -- ancestor that a session of Codex repeats.
  pub process-SettlementHolds :
      (done : ℕ → Bool) (records : List StoredRecord) (p : Settlement)
      → process out done records ≡ projected p
      → SettlementHolds (IsPublished out.tuple_id) p
  unfolding process process_records
  process-SettlementHolds done records p h = elim (Bool-cases (is_cancelled done 0 records)) [
    | inl e ↦ absurd (not_projected p (rw e at h))
    | inr e ↦
        projection-SettlementHolds records _ _ p (verdicts-VerdictHolds records records) refl
          (projected_some (process_records out records) p (rw e at h))
  ]
    where
      not_projected : (p : Settlement) → cancelled ≡ projected p → ⊥
      not_projected p e = cc

      projected_some :
          (o : Option Settlement) (p : Settlement) → processed_as o ≡ projected p → o ≡ some p
      projected_some none p e = cc
      projected_some (some q) p e = cc
