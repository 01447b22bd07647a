-- ===== src/CaptureReporter/Protocol/Work.antt =====
-- A measurement while its sources are worked on, and what each call does to the numbers.
use tokeninsights.Prelude.{
  ◌+◌, ◌-◌, ◌<◌, String, Bool, true, false, ◌≡◌, refl, ap, ◌∙◌, arith, if◌then◌else◌, Bool-cases,
  inl, inr,
}
use tokeninsights.Prelude.Int.{ℤ, pos, ltb_ℤ, int_eq}
use tokeninsights.CollectorProgress.Capture.{CapturePhase, unnamed}
use tokeninsights.CaptureReporter.{
  Measurement, new_measurement, work_phase, capture_work_phase, note_reading, note_saving,
  finalized, count_outcome,
}
use tokeninsights.CaptureReporter.Protocol.Tally.{Tally, checked, total, event_at, pos-+ℤ, pos--ℤ}

-- A measurement at work, by the numbers of its sources.
abbrev pub at_work : String → Bool → Tally → Measurement
at_work harness s t = record {
  event = event_at harness (work_phase s (event_at harness (unnamed "") t)) t;
  saving = s;
}

-- The phase is chosen without a look at the phase.
pub work_phase-phase :
    (harness : String) (p q : CapturePhase) (s : Bool) (t : Tally)
    → work_phase s (event_at harness p t) ≡ work_phase s (event_at harness q t)
unfolding work_phase
work_phase-phase harness p q s t = refl

-- A measurement with no total, as it is before the sources are known.
abbrev pub untotalled : String → CapturePhase → Measurement
untotalled harness phase = record (new_measurement harness) {
  event = record (new_measurement harness).event { phase = phase };
}

-- A measurement whose counts are those of `t` is, once its phase is chosen, at work with `t`.
counts-at_work :
    (harness : String) (p : CapturePhase) (s : Bool) (t : Tally) (all done c u f q now : ℤ)
    → all ≡ pos (total t)
    → done ≡ pos (checked t)
    → c ≡ pos t.captured
    → u ≡ pos t.unchanged
    → f ≡ pos t.failed
    → q ≡ pos t.quarantined
    → now ≡ pos t.reading
    → capture_work_phase (record {
      event = record {
        harness = harness;
        phase = p;
        total_known = true;
        total = all;
        checked = done;
        captured = c;
        unchanged = u;
        failed = f;
        quarantined = q;
        active = now;
      };
      saving = s;
    })
      ≡ at_work harness s t
unfolding capture_work_phase
counts-at_work harness p s t all done c u f q now e₁ e₂ e₃ e₄ e₅ e₆ e₇ =
    cc (e₁, e₂, e₃, e₄, e₅, e₆, e₇, work_phase-phase harness p (unnamed "") s t)

module _ (harness : String) (s : Bool) (t : Tally) where
  pub start-at_work :
      0 < t.left
      → note_reading true (at_work harness s t)
        ≡ at_work harness s (record t { left = t.left - 1; reading = t.reading + 1 })
  unfolding note_reading
  start-at_work h =
      counts-at_work harness _ s _ _ _ _ _ _ _ _ (ap pos (omega arith)) refl refl refl refl refl
        (pos-+ℤ t.reading 1)

  pub finish-at_work :
      0 < t.reading
      → note_reading false (at_work harness s t)
        ≡ at_work harness s (record t { reading = t.reading - 1; ready = t.ready + 1 })
  unfolding note_reading
  finish-at_work h =
      counts-at_work harness _ s _ _ _ _ _ _ _ _ (ap pos (omega arith)) refl refl refl refl refl
        (pos--ℤ t.reading 1 h)

  pub save-at_work : note_saving (at_work harness s t) ≡ at_work harness true t
  unfolding note_saving
  save-at_work = counts-at_work harness _ true t _ _ _ _ _ _ _ refl refl refl refl refl refl refl

  -- The numbers after a source is finalized.
  unfoldable pub settled : ℤ → Bool → Bool → Tally
  settled count failing is_quarantined =
      let t' = record t { ready = t.ready - 1 } in
      if is_quarantined
      then record t' { quarantined = t.quarantined + 1 }
      else if failing
      then record t' { failed = t.failed + 1 }
      else if ltb_ℤ (pos 0) count
      then record t' { captured = t.captured + 1 }
      else record t' { unchanged = t.unchanged + 1 }

  pub settle-at_work :
      (count : ℤ) (failing is_quarantined : Bool)
      → 0 < t.ready
      → finalized count failing is_quarantined (at_work harness s t)
        ≡ at_work harness false (settled count failing is_quarantined)
  unfolding finalized count_outcome settled
  settle-at_work count failing true h =
      counts-at_work harness _ false _ _ _ _ _ _ _ _ (ap pos (omega arith))
        (pos-+ℤ (checked t) 1 ∙ ap pos (omega arith)) refl refl refl (pos-+ℤ t.quarantined 1) refl
  settle-at_work count true false h =
      counts-at_work harness _ false _ _ _ _ _ _ _ _ (ap pos (omega arith))
        (pos-+ℤ (checked t) 1 ∙ ap pos (omega arith)) refl refl (pos-+ℤ t.failed 1) refl refl
  settle-at_work count false false h = elim (Bool-cases (ltb_ℤ (pos 0) count)) [
    | inl e ↦ rw e (
        counts-at_work harness _ false _ _ _ _ _ _ _ _ (ap pos (omega arith))
          (pos-+ℤ (checked t) 1 ∙ ap pos (omega arith)) (pos-+ℤ t.captured 1) refl refl refl refl)
    | inr e ↦ rw e (
        counts-at_work harness _ false _ _ _ _ _ _ _ _ (ap pos (omega arith))
          (pos-+ℤ (checked t) 1 ∙ ap pos (omega arith)) refl (pos-+ℤ t.unchanged 1) refl refl refl)
  ]
