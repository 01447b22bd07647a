-- ===== src/DataEngine/Processing.antt =====
-- worker.go with processor/process.go: a worker of the data engine that interprets by `Process`.
use tokeninsights.Prelude.{
  ℕ, Bool, true, false, ◌&&◌, if◌then◌else◌, List, [], ◌∷◌, Option, none, some, map, is_none, ◌≡◌,
  ◌⊎◌, refl, ap, ◌∙◌, length, ◌<◌, inl, inr, arith,
}
use tokeninsights.Publication.Validation.Facts.{IsPublished}
use tokeninsights.DataEngine.{Work}
use tokeninsights.DataEngine.Next.{
  Completion, interpret, interpret-process, interpret-none, is_published, run_worker,
}
use tokeninsights.Processor.Outside.{Outside}
use tokeninsights.Processor.Select.{Settlement}
use tokeninsights.Processor.Parse.{StoredRecord}
use tokeninsights.Processor.Process.{
  Processed, cancelled, unresolved, projected, is_cancelled, process,
}
use tokeninsights.Processor.Process.Noted.{outcome_ids}
use tokeninsights.Processor.Process.Answered.{process-answers, process-cancelled}
use tokeninsights.Processor.Process.Settling.{SettlementHolds}
use tokeninsights.Processor.Process.Published.{process-SettlementHolds}

-- The projection, none for an error of `Process`.
abbrev pub projection_of : Processed → Option Settlement
projection_of (projected p) = some p
projection_of cancelled = none
projection_of unresolved = none

-- `Process` as a worker calls it.
unfoldable pub processing : Outside → (ℕ → Bool) → List StoredRecord → Option Settlement
processing out done records = projection_of (process out done records)

module _ (out : Outside) (done : ℕ → Bool)
    (publish : Work StoredRecord → Settlement → Option Bool) where
  -- What a worker hands over for a component, and how it reports on it.
  pub record IsProcessed (live : Bool) (work : Work StoredRecord) : Type 0 where
    pub handed : Settlement
    pub made : process out done work.records ≡ projected handed
    pub answered : outcome_ids handed.outcomes ≡ map (λ s. s.id) work.records
    pub sound : SettlementHolds (IsPublished out.tuple_id) handed
    pub fails :
        (run_worker (processing out done) publish live work).failed ≡ is_none (publish work handed)
    pub reports :
        (run_worker (processing out done) publish live work).published
        ≡ is_published (processing out done) publish (publish work handed)
    pub notes :
        (run_worker (processing out done) publish live work).recorded
        ≡ (if is_none (publish work handed) && live then work ∷ [] else [])

  -- What a worker reports whose context is done before a record: it hands over nothing.
  abbrev pub IsStopped : Work StoredRecord → Completion StoredRecord → Type 0
  IsStopped work completion =
      (turn : ℕ) × (turn < length work.records)
      × (done turn ≡ true)
      × (completion ≡ record { work = work; failed = true; published = false; recorded = [] })

  stops :
      (live : Bool) (work : Work StoredRecord)
      → process out done work.records ≡ cancelled
      → live ≡ false
      → run_worker (processing out done) publish live work
        ≡ record { work = work; failed = true; published = false; recorded = [] }
  unfolding run_worker processing is_published
  stops live work stopped quiet =
      ap
        (λ given. record {
          work = work;
          failed = is_none given;
          published = is_published (processing out done) publish given;
          recorded = if is_none given && live then work ∷ [] else [];
        })
        (interpret-none (processing out done) publish work (ap projection_of stopped))
      ∙ rw quiet refl

  -- Whatever component a worker loads, it hands exactly one projection to the backend, with an outcome for each record
  -- in their order and no fact that is not as facts are published, and it fails, and notes the component as failed while
  -- its context is live, exactly if the backend does; or its context is done before one of the records, and then it
  -- hands over nothing, fails, and notes no failure. A context that is done is not live later.
  pub run_worker-IsProcessed :
      (live : Bool) (work : Work StoredRecord)
      → is_cancelled done 0 work.records && live ≡ false
      → IsStopped work (run_worker (processing out done) publish live work)
        ⊎ ((is_cancelled done 0 work.records ≡ false) × IsProcessed live work)
  unfolding run_worker processing
  run_worker-IsProcessed live work stays = elim (process-answers out done work.records) [
    | inl (turn, lt, at, stopped) ↦
        let quiet : live ≡ false =
          not_live _ live (process-cancelled out done work.records stopped) stays in
        inl (turn, lt, at, stops live work stopped quiet)
    | inr (running, p, made, answered) ↦
        let handed_over : interpret (processing out done) publish work ≡ publish work p =
          interpret-process (processing out done) publish work p (ap projection_of made) in
        inr (
          running,
          record {
            handed = p;
            made = made;
            answered = answered;
            sound = process-SettlementHolds out done work.records p made;
            fails = ap is_none handed_over;
            reports = ap (is_published (processing out done) publish) handed_over;
            notes = ap (λ given. if is_none given && live then work ∷ [] else []) handed_over;
          },
        )
  ]
    where
      not_live : (ended live : Bool) → ended ≡ true → ended && live ≡ false → live ≡ false
      not_live ended live e h = ground (arith, e, h)
