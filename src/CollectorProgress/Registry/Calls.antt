-- ===== src/CollectorProgress/Registry/Calls.antt =====
-- Any sequence of calls, each at its own reading of the clock.
use tokeninsights.Prelude.{ℕ, String, List, [], ◌∷◌}
use tokeninsights.CollectorProgress.Message.{Message}
use tokeninsights.CollectorProgress.Capture.{Capture}
use tokeninsights.CollectorProgress.Registry.{
  Registry, new, expire, apply, update_capture, interrupt_all,
}
use tokeninsights.CollectorProgress.Registry.Sound.{IsSound, new-IsSound}
use tokeninsights.CollectorProgress.Registry.Preserved.{apply-IsSound}
use tokeninsights.CollectorProgress.Registry.Swept.{expire-IsSound}
use tokeninsights.CollectorProgress.Registry.Measured.{update_capture-IsSound}
use tokeninsights.CollectorProgress.Registry.Interrupts.{interrupt_all-IsSound}

-- `look` is `Snapshot` or `Details`, which sweep before they read.
pub data Call : Type 0 where
  send : Message → Call
  report : String → String → Capture → Call
  look : Call
  stop : Call

unfoldable pub step : ℕ → Call → Registry → Registry
step now (send m) r = (apply now m r).0
step now (report id harness c) r = (update_capture now id harness c r).0
step now look r = expire now r
step now stop r = interrupt_all now r

unfoldable pub run : Registry → List (ℕ × Call) → Registry
run r [] = r
run r ((now, call) ∷ calls) = run (step now call r) calls

step-IsSound : (now : ℕ) (call : Call) (r : Registry) → IsSound r → IsSound (step now call r)
unfolding step
step-IsSound now (send m) r h = apply-IsSound now m r h
step-IsSound now (report id harness c) r h = update_capture-IsSound now id harness c r h
step-IsSound now look r h = expire-IsSound now r h
step-IsSound now stop r h = interrupt_all-IsSound now r h

run_from-IsSound : (r : Registry) (calls : List (ℕ × Call)) → IsSound r → IsSound (run r calls)
unfolding run
run_from-IsSound r [] h = h
run_from-IsSound r ((now, call) ∷ calls) h =
    run_from-IsSound (step now call r) calls (step-IsSound now call r h)

-- After any calls, at any readings of the clock, the registry is sound.
pub run-IsSound :
    (instance_id : String) (calls : List (ℕ × Call)) → IsSound (run (new instance_id) calls)
run-IsSound instance_id calls = run_from-IsSound (new instance_id) calls (new-IsSound instance_id)
