-- ===== src/CollectorProgress/Capture.antt =====
-- capture.go: the measurements of one harness, their validation and their order in time.
pub mod Ending
use tokeninsights.Prelude.{
  String, Bool, true, false, not, ◌&&◌, ◌||◌, ◌==◌, string_eq, if◌then◌else◌,
}
use tokeninsights.Prelude.Int.{ℤ, pos, ltb_ℤ, ◌+ℤ◌, int_eq}
use tokeninsights.CollectorProgress.Message.{valid_harness, out_of_range}

-- The Go type is a string: `unnamed` is any text that none of the constants is.
pub data CapturePhase : Type 0 where
  discovering waiting reading saving complete failed interrupted : CapturePhase
  unnamed : String → CapturePhase

pub record Capture : Type 0 where
  pub phase : CapturePhase
  pub total_known : Bool
  pub total : ℤ
  pub checked : ℤ
  pub captured : ℤ
  pub unchanged : ℤ
  pub failed : ℤ
  pub quarantined : ℤ
  pub active : ℤ

unfoldable pub capture_terminal : CapturePhase → Bool
capture_terminal complete = true
capture_terminal CapturePhase.failed = true
capture_terminal interrupted = true
capture_terminal _ = false

-- The `switch` of `validCapture`, on the phase.
unfoldable pub valid_phase : CapturePhase → Capture → Bool
valid_phase discovering c = not c.total_known
valid_phase waiting c = c.total_known && c.active == pos 0
valid_phase reading c = c.total_known && ltb_ℤ (pos 0) c.active
valid_phase saving c = c.total_known
valid_phase complete c =
    c.total_known
    && c.checked == c.total
    && c.failed == pos 0
    && c.quarantined == pos 0
    && c.active == pos 0
valid_phase CapturePhase.failed c = c.active == pos 0
valid_phase interrupted c = c.active == pos 0
valid_phase (unnamed _) c = false

unfoldable pub in_range : Capture → Bool
in_range c = not (
    out_of_range c.total
    || out_of_range c.checked
    || out_of_range c.captured
    || out_of_range c.unchanged
    || out_of_range c.failed
    || out_of_range c.quarantined
    || out_of_range c.active)

-- The counts agree with one another. In range no sum of them leaves `int64`.
unfoldable pub coherent : Capture → Bool
coherent c = not (
    not (c.checked == c.captured +ℤ c.unchanged +ℤ c.failed +ℤ c.quarantined)
    || c.total_known && ltb_ℤ c.total (c.checked +ℤ c.active)
    || not c.total_known
      && (not (c.total == pos 0) || not (c.checked == pos 0) || not (c.active == pos 0)))

unfoldable pub valid_capture : String → Capture → Bool
valid_capture harness c = valid_harness harness && in_range c && coherent c && valid_phase c.phase c

abbrev pub is_failed : CapturePhase → Bool
is_failed CapturePhase.failed = true
is_failed _ = false

abbrev pub is_interrupted : CapturePhase → Bool
is_interrupted interrupted = true
is_interrupted _ = false

-- The second half of the test in `UpdateCapture`: `capture` may not follow `previous`.
unfoldable pub regresses : Capture → Capture → Bool
regresses previous capture =
    let cancelled =
      is_failed previous.phase
      && is_interrupted capture.phase
      && capture.checked == previous.checked
      && capture.captured == previous.captured
      && capture.unchanged == previous.unchanged
      && capture.failed == previous.failed
      && capture.quarantined == previous.quarantined in
    capture_terminal previous.phase && not cancelled
    || previous.total_known && (not capture.total_known || not (previous.total == capture.total))
    || ltb_ℤ capture.captured previous.captured
    || ltb_ℤ capture.unchanged previous.unchanged
    || ltb_ℤ capture.failed previous.failed
    || ltb_ℤ capture.quarantined previous.quarantined

-- One round of `finishCapture`.
unfoldable pub end_capture : String → Capture → Capture
end_capture stage c = if capture_terminal c.phase then c else record c {
  phase = if stage == "failed" then CapturePhase.failed else interrupted;
  active = pos 0;
}
