-- ===== src/CollectorProgress/Capture/Ending.antt =====
-- `finishCapture` on one measurement.
use tokeninsights.Prelude.{
  String, Bool-cases, inl, inr, ◌==◌, string_eq, ◌≡◌, refl, true, false, arith,
}
use tokeninsights.Prelude.Int.{ℤ, ◌+ℤ◌, pos, ltb_ℤ, int_eq}
use tokeninsights.CollectorProgress.Message.{out_of_range}
use tokeninsights.CollectorProgress.Capture.{
  CapturePhase, interrupted, Capture, capture_terminal, valid_phase, in_range, coherent,
  valid_capture, end_capture,
}

abbrev idle : CapturePhase → Capture → Capture
idle phase c = record c { phase = phase; active = pos 0 }

zero_in_range : out_of_range (pos 0) ≡ false
unfolding out_of_range
zero_in_range = refl

in_range-idle : (p : CapturePhase) (c : Capture) → in_range c ≡ true → in_range (idle p c) ≡ true
unfolding in_range
in_range-idle p c h = ground (arith, zero_in_range)

in_range-active : (c : Capture) → in_range c ≡ true → out_of_range c.active ≡ false
unfolding in_range
in_range-active c h = ground arith

-- Fewer sources being read do not break the bound by the total.
idle_fits :
    (total checked active : ℤ)
    → out_of_range active ≡ false
    → ltb_ℤ total (checked +ℤ active) ≡ false
    → ltb_ℤ total (checked +ℤ pos 0) ≡ false
unfolding ◌+ℤ◌ out_of_range
idle_fits total checked active r h = ground arith

coherent-idle :
    (p : CapturePhase) (c : Capture)
    → out_of_range c.active ≡ false
    → coherent c ≡ true
    → coherent (idle p c) ≡ true
unfolding coherent
coherent-idle p c r h = ground (arith, idle_fits c.total c.checked c.active r)

-- An ended measurement is over.
pub end_capture-terminal :
    (stage : String) (c : Capture) → capture_terminal (end_capture stage c).phase ≡ true
unfolding end_capture capture_terminal
end_capture-terminal stage c = ground arith

idle-valid :
    (p : CapturePhase) (harness : String) (c : Capture)
    → ((d : Capture) → valid_phase p d ≡ (d.active == pos 0))
    → valid_capture harness c ≡ true
    → valid_capture harness (idle p c) ≡ true
unfolding valid_capture
idle-valid p harness c over h =
    ground (arith, over (idle p c), in_range-idle p c, in_range-active c, coherent-idle p c)

-- Ending a valid measurement leaves a valid one.
pub end_capture-valid :
    (stage harness : String) (c : Capture)
    → valid_capture harness c ≡ true
    → valid_capture harness (end_capture stage c) ≡ true
unfolding end_capture valid_phase
end_capture-valid stage harness c h = elim (Bool-cases (capture_terminal c.phase)) [
  | inl over ↦ rw over h
  | inr open' ↦ elim (Bool-cases (stage == "failed")) [
    | inl e ↦ rw (open', e) (idle-valid CapturePhase.failed harness c (λ d. refl) h)
    | inr e ↦ rw (open', e) (idle-valid interrupted harness c (λ d. refl) h)
  ]
]
