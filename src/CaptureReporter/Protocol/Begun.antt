-- ===== src/CaptureReporter/Protocol/Begun.antt =====
-- The whole of a harness's events, from its discovery on.
use tokeninsights.Prelude.{
  ℕ, ◌≤◌, String, Bool, true, false, List, [], ◌∷◌, Option, none, some, ◌≡◌, refl, arith,
}
use tokeninsights.Prelude.Int.{pos, ◌+ℤ◌, int_eq}
use tokeninsights.CollectorProgress.Message.{valid_harness, max_safe_counter, out_of_range}
use tokeninsights.CollectorProgress.Capture.{
  CapturePhase, discovering, interrupted, unnamed, Capture, capture_terminal, valid_phase,
  valid_capture, in_range, coherent, regresses,
}
use tokeninsights.CollectorProgress.Registry.{follows}
use tokeninsights.CaptureReporter.{
  new_measurement, work_phase, begin_discovery, discovered, stopped, unfinished, capture_of,
}
use tokeninsights.CaptureReporter.Protocol.{
  Op, seek, found, stop, stop_unfinished, perform, fresh, looking, unknown, working, AreAllowed,
  trace,
}
use tokeninsights.CaptureReporter.Protocol.Tally.{
  Tally, capture_at, capture_at-valid, work_phase-valid,
}
use tokeninsights.CaptureReporter.Protocol.Work.{at_work, untotalled}
use tokeninsights.CaptureReporter.Protocol.Accepted.{AreTaken, work_taken}

-- The numbers when `n` sources are found.
abbrev nothing_done : ℕ → Tally
nothing_done n = record {
  left = n;
  reading = 0;
  ready = 0;
  captured = 0;
  unchanged = 0;
  failed = 0;
  quarantined = 0;
}

module _ (harness : String) (known : valid_harness harness ≡ true) where
  untotalled-valid :
      (p : CapturePhase)
      → valid_phase p (capture_of (untotalled harness p).event) ≡ true
      → valid_capture harness (capture_of (untotalled harness p).event) ≡ true
  unfolding valid_capture in_range coherent out_of_range capture_of new_measurement ◌+ℤ◌
  untotalled-valid p h = rw (known, h) refl

  found-at_work :
      (n : ℕ)
      → discovered (pos n) (untotalled harness discovering) ≡ at_work harness false (nothing_done n)
  unfolding discovered new_measurement work_phase
  found-at_work n = ground arith

  found_follows :
      (q : CapturePhase) (n : ℕ)
      → follows
          (some (capture_of (untotalled harness discovering).event))
          (capture_at q (nothing_done n))
        ≡ true
  unfolding follows regresses capture_terminal new_measurement capture_of
  found_follows q n = refl

  stop_phases :
      (b : Bool)
      → valid_capture harness (capture_of (stopped b (untotalled harness discovering)).event) ≡ true
  unfolding stopped valid_phase capture_of new_measurement
  stop_phases true = untotalled-valid interrupted refl
  stop_phases false = untotalled-valid CapturePhase.failed refl

  stop_follows :
      (b : Bool)
      → follows
          (some (capture_of (untotalled harness discovering).event))
          (capture_of (stopped b (untotalled harness discovering)).event)
        ≡ true
  unfolding stopped follows regresses capture_terminal new_measurement capture_of
  stop_follows true = refl
  stop_follows false = refl

  same_harness : (b : Bool) → (stopped b (untotalled harness discovering)).event.harness ≡ harness
  unfolding stopped new_measurement
  same_harness b = refl

  -- With no total, there is nothing to call unfinished.
  unknown_taken :
      (p : CapturePhase) (last : Option Capture) (ops : List Op)
      → AreAllowed unknown ops
      → AreTaken harness last (trace (untotalled harness p) ops)
  unfolding trace perform unfinished new_measurement
  unknown_taken p last [] h = tt
  unknown_taken p last (stop_unfinished b ∷ ops) h = unknown_taken p last ops h.1
  unknown_taken p last (op ∷ ops) h = absurd h.0

  stopped_taken :
      (b : Bool) (ops : List Op)
      → AreAllowed unknown ops
      → AreTaken harness
          (some (capture_of (stopped b (untotalled harness discovering)).event))
          (trace (stopped b (untotalled harness discovering)) ops)
  unfolding stopped
  stopped_taken true ops h = unknown_taken interrupted _ ops h
  stopped_taken false ops h = unknown_taken CapturePhase.failed _ ops h

  discovered_taken :
      (n : ℕ) (ops : List Op)
      → n ≤ max_safe_counter
      → AreAllowed (working n 0 0) ops
      → AreTaken harness
          (some (capture_of (untotalled harness discovering).event))
          (trace (untotalled harness discovering) (found n ∷ ops))
  unfolding trace perform capture_of
  discovered_taken n ops fits h = rw (found-at_work n) (
    refl,
    capture_at-valid harness _ (nothing_done n) known (omega (arith, fits))
        (work_phase-valid harness (unnamed "") false (nothing_done n)),
    found_follows _ n,
    work_taken harness known false (nothing_done n) ops (omega (arith, fits)) h,
  )

  looking_taken :
      (ops : List Op)
      → AreAllowed looking ops
      → AreTaken harness
          (some (capture_of (untotalled harness discovering).event))
          (trace (untotalled harness discovering) ops)
  unfolding trace perform
  looking_taken [] h = tt
  looking_taken (found n ∷ ops) (fits, h) = discovered_taken n ops fits h
  looking_taken (stop b ∷ ops) (_, h) =
      (same_harness b, stop_phases b, stop_follows b, stopped_taken b ops h)
  looking_taken (op ∷ ops) h = absurd h.0

  -- For a known harness, whatever calls are made in an allowed order, each event they make is
  -- valid as a capture of the harness, and the registry's rules let it follow the event before it.
  pub trace-AreTaken :
      (ops : List Op)
      → AreAllowed fresh ops
      → AreTaken harness none (trace (new_measurement harness) ops)
  unfolding trace perform unfinished new_measurement begin_discovery follows valid_phase capture_of
  trace-AreTaken [] h = tt
  trace-AreTaken (seek ∷ ops) h =
      (refl, untotalled-valid discovering refl, refl, looking_taken ops h.1)
  trace-AreTaken (stop_unfinished b ∷ ops) h = trace-AreTaken ops h.1
  trace-AreTaken (op ∷ ops) h = absurd h.0
