-- ===== src/CaptureReporter.antt =====
-- packages/core/pipeline/capture_progress.go: the reporter of capture progress, one measurement for
-- each harness. Its phases are the texts of packages/core/collectorprogress/capture.go, and counts
-- are Go's `int`, read as integers. The callback is given the events that the methods return here.
pub mod Protocol
pub mod Delivery
mod Examples
use tokeninsights.Prelude.{
  ℕ, zero, suc, String, Bool, true, false, not, ◌&&◌, ◌||◌, List, [], ◌∷◌, Option, none, some, ◌==◌,
  if◌then◌else◌,
}
use tokeninsights.Prelude.Int.{ℤ, pos, ◌+ℤ◌, ◌-ℤ◌, ltb_ℤ, int_eq}
use tokeninsights.CollectorProgress.Capture.{
  CapturePhase, discovering, waiting, reading, saving, complete, interrupted, unnamed, Capture,
}

pub record CaptureProgressEvent : Type 0 where
  pub harness : String
  pub phase : CapturePhase
  pub total_known : Bool
  pub total : ℤ
  pub checked : ℤ
  pub captured : ℤ
  pub unchanged : ℤ
  pub failed : ℤ
  pub quarantined : ℤ
  pub active : ℤ

pub record Measurement : Type 0 where
  pub event : CaptureProgressEvent
  pub saving : Bool

-- A measurement as `newCaptureReporter` makes it.
unfoldable pub new_measurement : String → Measurement
new_measurement harness = record {
  event = record {
    harness = harness;
    phase = unnamed "";
    total_known = false;
    total = pos 0;
    checked = pos 0;
    captured = pos 0;
    unchanged = pos 0;
    failed = pos 0;
    quarantined = pos 0;
    active = pos 0;
  };
  saving = false;
}

unfoldable pub new_capture_reporter : List String → List Measurement
new_capture_reporter [] = []
new_capture_reporter (h ∷ hs) = new_measurement h ∷ new_capture_reporter hs

-- `update`: the changed measurements, and the event for the callback. An index out of range, at
-- which Go panics, is `none`.
unfoldable pub update :
    ℕ
    → (Measurement → Measurement)
    → List Measurement
    → Option (List Measurement × CaptureProgressEvent)
update index apply [] = none
update zero apply (m ∷ ms) = some (apply m ∷ ms, (apply m).event)
update (suc index) apply (m ∷ ms) = elim (update index apply ms) [
  | none ↦ none
  | some (ms', event) ↦ some (m ∷ ms', event)
]

abbrev set_phase : CapturePhase → Measurement → Measurement
set_phase phase m = record m { event = record m.event { phase = phase } }

unfoldable pub begin_discovery : Measurement → Measurement
begin_discovery m = set_phase discovering m

unfoldable pub discovered : ℤ → Measurement → Measurement
discovered total m = record m {
  event = record m.event {
    total_known = true;
    total = total;
    phase = if total == pos 0 then complete else waiting;
  };
}

-- The phase that `captureWorkPhase` chooses.
unfoldable pub work_phase : Bool → CaptureProgressEvent → CapturePhase
work_phase is_saving e =
    if is_saving
    then saving
    else if ltb_ℤ (pos 0) e.active
    then reading
    else if ltb_ℤ e.checked e.total
    then waiting
    else if ltb_ℤ (pos 0) e.failed || ltb_ℤ (pos 0) e.quarantined
    then CapturePhase.failed
    else complete

unfoldable pub capture_work_phase : Measurement → Measurement
capture_work_phase m = set_phase (work_phase m.saving m.event) m

unfoldable pub note_reading : Bool → Measurement → Measurement
note_reading started m = capture_work_phase (record m {
  event = record m.event {
    active = if started then m.event.active +ℤ pos 1 else m.event.active -ℤ pos 1;
  };
})

unfoldable pub note_saving : Measurement → Measurement
note_saving m = capture_work_phase (record m { saving = true })

-- The outcomes of a source, of which `finalized` counts exactly one.
unfoldable pub count_outcome : ℤ → Bool → Bool → CaptureProgressEvent → CaptureProgressEvent
count_outcome count failing is_quarantined e =
    if is_quarantined
    then record e { quarantined = e.quarantined +ℤ pos 1 }
    else if failing
    then record e { failed = e.failed +ℤ pos 1 }
    else if ltb_ℤ (pos 0) count
    then record e { captured = e.captured +ℤ pos 1 }
    else record e { unchanged = e.unchanged +ℤ pos 1 }

-- `failing` is whether the error is not nil.
unfoldable pub finalized : ℤ → Bool → Bool → Measurement → Measurement
finalized count failing is_quarantined m = capture_work_phase (record {
  saving = false;
  event =
      count_outcome count failing is_quarantined
        (record m.event { checked = m.event.checked +ℤ pos 1 });
})

unfoldable pub stopped : Bool → Measurement → Measurement
stopped is_interrupted m = set_phase (if is_interrupted then interrupted else CapturePhase.failed) m

-- The test of the loop of `stoppedUnfinished`.
unfoldable pub unfinished : Bool → CaptureProgressEvent → Bool
unfinished is_interrupted e =
    e.total_known && (ltb_ℤ e.checked e.total || is_interrupted && ltb_ℤ (pos 0) e.failed)

-- `stoppedUnfinished`: the measurements, and the events for the callback in their order.
unfoldable pub stopped_unfinished :
    Bool → List Measurement → List Measurement × List CaptureProgressEvent
stopped_unfinished is_interrupted [] = ([], [])
stopped_unfinished is_interrupted (m ∷ ms) =
    let (ms', events) = stopped_unfinished is_interrupted ms in
    if unfinished is_interrupted m.event
    then (stopped is_interrupted m ∷ ms', (stopped is_interrupted m).event ∷ events)
    else (m ∷ ms', events)

-- packages/core/localruntime/observer.go: the event as the registry is given it.
unfoldable pub capture_of : CaptureProgressEvent → Capture
capture_of e = record {
  phase = e.phase;
  total_known = e.total_known;
  total = e.total;
  checked = e.checked;
  captured = e.captured;
  unchanged = e.unchanged;
  failed = e.failed;
  quarantined = e.quarantined;
  active = e.active;
}
