-- ===== src/CaptureReporter/Examples.antt =====
-- The reporter on two sources of one harness, one of them failing before an interruption.
use tokeninsights.Prelude.{nat_eq, true, false, List, [], ◌∷◌, none, ◌≡◌, refl, arith}
use tokeninsights.Prelude.Int.{pos, ◌+ℤ◌, ◌-ℤ◌}
use tokeninsights.CollectorProgress.Message.{valid_harness}
use tokeninsights.CollectorProgress.Capture.{
  CapturePhase, interrupted, discovering, waiting, reading, saving,
}
use tokeninsights.CaptureReporter.{
  CaptureProgressEvent, new_measurement, begin_discovery, discovered, note_reading, note_saving,
  finalized, count_outcome, capture_work_phase, work_phase, stopped, unfinished,
}
use tokeninsights.CaptureReporter.Protocol.{
  Op, seek, found, start, finish, save, settle, stop_unfinished, perform, trace, AreAllowed, Ledger,
}
use tokeninsights.CaptureReporter.Protocol.Accepted.{AreTaken}
use tokeninsights.CaptureReporter.Protocol.Begun.{trace-AreTaken}

-- Two sources are read at once; one is saved, the other fails, and then all is interrupted.
abbrev calls : List Op
calls =
    seek
    ∷ found 2
    ∷ start
    ∷ start
    ∷ finish
    ∷ save
    ∷ settle (pos 7) false false
    ∷ finish
    ∷ settle (pos 0) true false
    ∷ stop_unfinished true
    ∷ []

abbrev phases : List CaptureProgressEvent → List CapturePhase
phases [] = []
phases (e ∷ events) = e.phase ∷ phases events

phases_seen :
    phases (trace (new_measurement "pi") calls)
    ≡ discovering ∷ waiting ∷ reading ∷ reading ∷ reading ∷ saving ∷ reading ∷ waiting
      ∷ CapturePhase.failed ∷ interrupted ∷ []
unfolding trace perform new_measurement begin_discovery discovered note_reading note_saving
    finalized count_outcome capture_work_phase work_phase stopped unfinished ◌+ℤ◌ ◌-ℤ◌
phases_seen = refl

calls_allowed : AreAllowed Ledger.fresh calls
calls_allowed = (
  tt,
  (
    omega arith,
    (
      omega arith,
      (
        omega arith,
        (omega arith, (omega arith, (omega arith, (omega arith, (omega arith, (refl, tt)))))),
      ),
    ),
  ),
)

trace-AreTaken_example : AreTaken "pi" none (trace (new_measurement "pi") calls)
unfolding valid_harness
trace-AreTaken_example = trace-AreTaken "pi" refl calls calls_allowed
