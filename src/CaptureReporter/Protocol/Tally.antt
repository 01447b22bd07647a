-- ===== src/CaptureReporter/Protocol/Tally.antt =====
-- The captures of a harness by the numbers of its sources, and which of them may follow which.
use tokeninsights.Prelude.{ℕ, ◌+◌, ◌-◌, ◌≤◌, ◌<◌, String, Bool, true, false, ◌≡◌, arith}
use tokeninsights.Prelude.Int.{pos, ◌+ℤ◌, ◌-ℤ◌, int_eq}
use tokeninsights.CollectorProgress.Message.{valid_harness, out_of_range, max_safe_counter}
use tokeninsights.CollectorProgress.Capture.{
  CapturePhase, interrupted, Capture, capture_terminal, valid_phase, in_range, coherent,
  valid_capture, regresses,
}
use tokeninsights.CaptureReporter.{CaptureProgressEvent, work_phase}

pub record Tally : Type 0 where
  pub left : ℕ
  pub reading : ℕ
  pub ready : ℕ
  pub captured : ℕ
  pub unchanged : ℕ
  pub failed : ℕ
  pub quarantined : ℕ

abbrev pub checked : Tally → ℕ
checked t = t.captured + t.unchanged + t.failed + t.quarantined

abbrev pub total : Tally → ℕ
total t = t.left + t.reading + t.ready + checked t

abbrev pub capture_at : CapturePhase → Tally → Capture
capture_at phase t = record {
  phase = phase;
  total_known = true;
  total = pos (total t);
  checked = pos (checked t);
  captured = pos t.captured;
  unchanged = pos t.unchanged;
  failed = pos t.failed;
  quarantined = pos t.quarantined;
  active = pos t.reading;
}

abbrev pub event_at : String → CapturePhase → Tally → CaptureProgressEvent
event_at harness phase t = record {
  harness = harness;
  phase = phase;
  total_known = true;
  total = pos (total t);
  checked = pos (checked t);
  captured = pos t.captured;
  unchanged = pos t.unchanged;
  failed = pos t.failed;
  quarantined = pos t.quarantined;
  active = pos t.reading;
}

pub pos-+ℤ : (a b : ℕ) → pos a +ℤ pos b ≡ pos (a + b)
unfolding ◌+ℤ◌
pos-+ℤ a b = ground arith

pub pos--ℤ : (a b : ℕ) → b ≤ a → pos a -ℤ pos b ≡ pos (a - b)
unfolding ◌-ℤ◌
pos--ℤ a b h = ground arith

pos_in_range : (n : ℕ) → n ≤ max_safe_counter → out_of_range (pos n) ≡ false
unfolding out_of_range
pos_in_range n h = ground arith

capture_at-in_range :
    (p : CapturePhase) (t : Tally) → total t ≤ max_safe_counter → in_range (capture_at p t) ≡ true
unfolding in_range
capture_at-in_range p t h = rw (
  pos_in_range (total t) h,
  pos_in_range (checked t) (omega arith),
  pos_in_range t.captured (omega arith),
  pos_in_range t.unchanged (omega arith),
  pos_in_range t.failed (omega arith),
  pos_in_range t.quarantined (omega arith),
  pos_in_range t.reading (omega arith),
)

capture_at-coherent : (p : CapturePhase) (t : Tally) → coherent (capture_at p t) ≡ true
unfolding coherent
capture_at-coherent p t = ground (
  arith,
  pos-+ℤ t.captured t.unchanged,
  pos-+ℤ (t.captured + t.unchanged) t.failed,
  pos-+ℤ (t.captured + t.unchanged + t.failed) t.quarantined,
  pos-+ℤ (checked t) t.reading,
)

pub capture_at-valid :
    (harness : String) (p : CapturePhase) (t : Tally)
    → valid_harness harness ≡ true
    → total t ≤ max_safe_counter
    → valid_phase p (capture_at p t) ≡ true
    → valid_capture harness (capture_at p t) ≡ true
unfolding valid_capture
capture_at-valid harness p t known fits phase =
    ground (arith, capture_at-in_range p t fits, capture_at-coherent p t)

-- The phase of the work is valid for the numbers.
pub work_phase-valid :
    (harness : String) (p : CapturePhase) (s : Bool) (t : Tally)
    → valid_phase
        (work_phase s (event_at harness p t))
        (capture_at (work_phase s (event_at harness p t)) t)
      ≡ true
unfolding work_phase valid_phase
work_phase-valid harness p s t = ground arith

-- The work is over only when nothing is being saved and every source is finalized.
pub work_phase-terminal :
    (harness : String) (p : CapturePhase) (s : Bool) (t : Tally)
    → capture_terminal (work_phase s (event_at harness p t)) ≡ true
    → (t.left ≡ 0)
      × (t.reading ≡ 0)
      × (t.ready ≡ 0)
      × (0 < t.failed → work_phase s (event_at harness p t) ≡ CapturePhase.failed)
unfolding work_phase capture_terminal
work_phase-terminal harness p s t h = ground arith

-- Later numbers of the same sources may follow, unless the measurement was over.
pub capture_at-follows :
    (p q : CapturePhase) (t u : Tally)
    → capture_terminal p ≡ false
    → total t ≡ total u
    → t.captured ≤ u.captured
    → t.unchanged ≤ u.unchanged
    → t.failed ≤ u.failed
    → t.quarantined ≤ u.quarantined
    → regresses (capture_at p t) (capture_at q u) ≡ false
unfolding regresses
capture_at-follows p q t u live same c n f k = rw live (ground (arith, same))

-- A failed measurement may turn into an interrupted one.
pub capture_at-cancelled :
    (t : Tally) → regresses (capture_at CapturePhase.failed t) (capture_at interrupted t) ≡ false
unfolding regresses capture_terminal
capture_at-cancelled t = ground arith
