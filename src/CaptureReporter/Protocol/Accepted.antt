-- ===== src/CaptureReporter/Protocol/Accepted.antt =====
-- The events of the reporter beside the rules of the registry for captures, once sources are known.
use tokeninsights.Prelude.{
  ◌+◌, ◌-◌, ◌≤◌, ◌<◌, String, Bool, true, false, List, [], ◌∷◌, Option, some, ◌≡◌, refl, arith,
  if◌then◌else◌, Bool-cases, inl, inr, ◌⊎◌,
}
use tokeninsights.Prelude.Int.{ℤ, int_eq}
use tokeninsights.CollectorProgress.Message.{valid_harness, max_safe_counter}
use tokeninsights.CollectorProgress.Capture.{
  CapturePhase, interrupted, unnamed, Capture, capture_terminal, valid_phase, valid_capture,
  regresses,
}
use tokeninsights.CollectorProgress.Registry.{follows}
use tokeninsights.CaptureReporter.{
  CaptureProgressEvent, Measurement, work_phase, stopped, unfinished, capture_of,
}
use tokeninsights.CaptureReporter.Protocol.{
  Op, seek, found, start, finish, save, settle, stop, stop_unfinished, perform, over, working,
  Allowed, AreAllowed, trace,
}
use tokeninsights.CaptureReporter.Protocol.Tally.{
  Tally, checked, total, capture_at, event_at, capture_at-valid, work_phase-valid,
  work_phase-terminal, capture_at-follows, capture_at-cancelled,
}
use tokeninsights.CaptureReporter.Protocol.Work.{
  at_work, start-at_work, finish-at_work, save-at_work, settled, settle-at_work,
}

-- The events are of `harness`, every capture is valid, and may follow the one before it.
abbrev pub AreTaken : String → Option Capture → List CaptureProgressEvent → Type 0
AreTaken harness last [] = Unit
AreTaken harness last (e ∷ events) =
    (e.harness ≡ harness)
    × (valid_capture harness (capture_of e) ≡ true)
    × (follows last (capture_of e) ≡ true)
    × AreTaken harness (some (capture_of e)) events

not_regressing : (old new : Capture) → regresses old new ≡ false → follows (some old) new ≡ true
unfolding follows
not_regressing old new h = rw h refl

pub nothing_after : (op : Op) → Allowed over op → ⊥
nothing_after seek h = h
nothing_after _ h = h

settled_lem :
    (harness : String) (s : Bool) (t : Tally) (count : ℤ) (failing is_quarantined : Bool)
    → 0 < t.ready
    → (total t ≡ total (settled harness s t count failing is_quarantined))
      × ((settled harness s t count failing is_quarantined).left ≡ t.left)
      × ((settled harness s t count failing is_quarantined).reading ≡ t.reading)
      × ((settled harness s t count failing is_quarantined).ready ≡ t.ready - 1)
      × ((t.captured ≤ (settled harness s t count failing is_quarantined).captured)
          × (t.unchanged ≤ (settled harness s t count failing is_quarantined).unchanged)
          × (t.failed ≤ (settled harness s t count failing is_quarantined).failed)
          × (t.quarantined ≤ (settled harness s t count failing is_quarantined).quarantined))
unfolding settled
settled_lem harness s t count failing is_quarantined h = ground arith

module _ (harness : String) (known : valid_harness harness ≡ true) where
  -- One event of the work after another, with nothing counted twice or lost.
  work_step :
      (s s' : Bool) (t t' : Tally) (rest : List CaptureProgressEvent)
      → 0 < t.left + t.reading + t.ready
      → total t ≡ total t'
      → total t ≤ max_safe_counter
      → (t.captured ≤ t'.captured)
        × (t.unchanged ≤ t'.unchanged)
        × (t.failed ≤ t'.failed)
        × (t.quarantined ≤ t'.quarantined)
      → AreTaken harness (some (capture_of (at_work harness s' t').event)) rest
      → AreTaken harness
          (some (capture_of (at_work harness s t).event))
          ((at_work harness s' t').event ∷ rest)
  unfolding capture_of
  work_step s s' t t' rest busy same fits (c, u, f, q) h = (
    refl,
    capture_at-valid harness _ t' known (omega (arith, same, fits))
        (work_phase-valid harness (unnamed "") s' t'),
    not_regressing _ _ (
        capture_at-follows _ _ t t'
          (elim (Bool-cases (capture_terminal (work_phase s (event_at harness (unnamed "") t)))) [
            | inl e ↦
                let done = work_phase-terminal harness (unnamed "") s t e in
                absurd (omega (arith, done.0, done.1, done.2, busy))
            | inr e ↦ e
          ])
          same c u f q),
    h,
  )

  pub over_taken :
      (last : Option Capture) (m : Measurement) (ops : List Op)
      → AreAllowed over ops
      → AreTaken harness last (trace m ops)
  unfolding trace
  over_taken last m [] h = tt
  over_taken last m (op ∷ ops) h = absurd (nothing_after op h.0)

  idle_phases :
      (t : Tally)
      → t.reading ≡ 0
      → (valid_phase interrupted (capture_at interrupted t) ≡ true)
        × (valid_phase CapturePhase.failed (capture_at CapturePhase.failed t) ≡ true)
  unfolding valid_phase
  idle_phases t idle = ground arith

  -- What is unfinished when it is stopped: a source, or else a failed one at an interruption.
  unfinished_at :
      (b : Bool) (p : CapturePhase) (t : Tally)
      → unfinished b (event_at harness p t) ≡ true
      → (checked t < total t) ⊎ ((b ≡ true) × (0 < t.failed))
  unfolding unfinished
  unfinished_at b p t e = ground arith

  stopped_follows :
      (b s : Bool) (t : Tally)
      → unfinished b (at_work harness s t).event ≡ true
      → regresses
          (capture_at (work_phase s (event_at harness (unnamed "") t)) t)
          (capture_at (if b then interrupted else CapturePhase.failed) t)
        ≡ false
  stopped_follows b s t e =
      elim (Bool-cases (capture_terminal (work_phase s (event_at harness (unnamed "") t)))) [
        | inr live ↦
            capture_at-follows _ _ t t live refl (omega arith) (omega arith) (omega arith)
              (omega arith)
        | inl done ↦
            let (l, o, r, f) = work_phase-terminal harness (unnamed "") s t done in
            elim (unfinished_at b _ t e) [
              | inl more ↦ absurd (omega (arith, l, o, r, more))
              | inr (cut, failing) ↦ rw (f failing, cut) (capture_at-cancelled t)
            ]
      ]

  stopped_valid :
      (b : Bool) (t : Tally)
      → total t ≤ max_safe_counter
      → t.reading ≡ 0
      → valid_capture harness (capture_at (if b then interrupted else CapturePhase.failed) t) ≡ true
  stopped_valid true t fits idle =
      capture_at-valid harness interrupted t known fits (idle_phases t idle).0
  stopped_valid false t fits idle =
      capture_at-valid harness CapturePhase.failed t known fits (idle_phases t idle).1

  stop_taken :
      (b s : Bool) (t : Tally) (ops : List Op)
      → total t ≤ max_safe_counter
      → t.reading ≡ 0
      → AreAllowed over ops
      → AreTaken harness
          (some (capture_of (at_work harness s t).event))
          (trace (at_work harness s t) (stop_unfinished b ∷ ops))
  unfolding trace perform stopped capture_of
  stop_taken b s t ops fits idle h = elim (Bool-cases (unfinished b (at_work harness s t).event)) [
    | inl e ↦ rw e (
      refl,
      stopped_valid b t fits idle,
      not_regressing _ _ (stopped_follows b s t e),
      over_taken _ _ ops h,
    )
    | inr e ↦ rw e (over_taken _ _ ops h)
  ]

  pub work_taken :
      (s : Bool) (t : Tally) (ops : List Op)
      → total t ≤ max_safe_counter
      → AreAllowed (working t.left t.reading t.ready) ops
      → AreTaken harness
          (some (capture_of (at_work harness s t).event))
          (trace (at_work harness s t) ops)
  unfolding trace perform
  work_taken s t [] fits h = tt
  work_taken s t (seek ∷ ops) fits h = absurd h.0
  work_taken s t (found n ∷ ops) fits h = absurd h.0
  work_taken s t (stop b ∷ ops) fits h = absurd h.0
  work_taken s t (stop_unfinished b ∷ ops) fits (idle, h) = stop_taken b s t ops fits idle h
  work_taken s t (start ∷ ops) fits (some_left, h) =
      let t' = record t { left = t.left - 1; reading = t.reading + 1 } in
      rw (start-at_work harness s t some_left) (
        work_step s s t t' _ (omega arith) (omega arith) fits (omega arith)
          (work_taken s t' ops (omega arith) h))
  work_taken s t (finish ∷ ops) fits (open', h) =
      let t' = record t { reading = t.reading - 1; ready = t.ready + 1 } in
      rw (finish-at_work harness s t open') (
        work_step s s t t' _ (omega arith) (omega arith) fits (omega arith)
          (work_taken s t' ops (omega arith) h))
  work_taken s t (save ∷ ops) fits (ready, h) =
      rw (save-at_work harness s t) (
        work_step s true t t _ (omega arith) refl fits (omega arith) (work_taken true t ops fits h))
  work_taken s t (settle count failing is_quarantined ∷ ops) fits (ready, h) =
      let t' = settled harness s t count failing is_quarantined in
      let (same, l, o, r, counts) = settled_lem harness s t count failing is_quarantined ready in
      rw (settle-at_work harness s t count failing is_quarantined ready) (
        work_step s false t t' _ (omega arith) same fits counts
          (work_taken false t' ops (omega (arith, same)) (rw (l, o, r) h)))
