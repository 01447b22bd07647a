-- ===== src/CollectorProgress/Examples.antt =====
-- The registry on concrete calls: tests, and the theorems at inputs that meet their hypotheses.
use mathlib.Core.Option
use tokeninsights.Prelude.{
  ℕ, ◌<◌, String, true, false, ◌&&◌, List, [], ◌∷◌, none, some, ◌≡◌, ◌⊎◌, refl, length, ◌==◌,
  string_eq, if◌then◌else◌,
}
use tokeninsights.Prelude.Int.{pos, ◌+ℤ◌}
use tokeninsights.Prelude.Maps.{lookup, insert, erase}
use tokeninsights.CollectorProgress.Message.{
  Message, terminal, valid_message, attempt_pattern, valid_operation, valid_states, valid_harness,
  out_of_range,
}
use tokeninsights.CollectorProgress.Capture.{
  Capture, reading, valid_capture, in_range, coherent, valid_phase, capture_terminal, regresses,
  end_capture,
}
use tokeninsights.CollectorProgress.Registry.{
  ProgressError, conflict, Attempt, Registry, new, expire, apply, update_capture, max_attempts,
  lost, apply_valid, begin, resume, write, commit, merge, fresh, goes_back, expire_one, sweep,
  forget, lease_over, retention_over, finish_capture, end_captures, measure, or_empty, follows,
}
use tokeninsights.CollectorProgress.Registry.Sound.{IsSound, new-IsSound}
use tokeninsights.CollectorProgress.Registry.Oldest.{IsOldest}
use tokeninsights.CollectorProgress.Registry.Preserved.{apply-IsSound}
use tokeninsights.CollectorProgress.Registry.Measured.{Stores, update_capture_lem}
use tokeninsights.CollectorProgress.Registry.Outcomes.{apply_refused}
use tokeninsights.CollectorProgress.Registry.Verdict.{verdict, apply-verdict}
use tokeninsights.CollectorProgress.Registry.Effects.{begun, Replaces, apply-begins}
use tokeninsights.CollectorProgress.Registry.Calls.{
  Call, send, report, look, stop, run, run-IsSound,
}

abbrev id : String
id = "0123456789abcdef0123456789abcdef"

abbrev beginning : Message
beginning = record {
  operation = "begin";
  attempt_id = id;
  stage = "waiting";
  harnesses = [];
  acknowledged_batches = pos 0;
  acknowledged_entries = pos 0;
  pending_known = false;
  pending = pos 0;
  error_code = "";
}

abbrev submitting : Message
submitting = record beginning {
  operation = "update";
  stage = "submitting";
  acknowledged_batches = pos 2;
  acknowledged_entries = pos 9;
}

abbrev measuring : Capture
measuring = record {
  phase = reading;
  total_known = true;
  total = pos 5;
  checked = pos 2;
  captured = pos 1;
  unchanged = pos 1;
  failed = pos 0;
  quarantined = pos 0;
  active = pos 3;
}

dashed_id : attempt_pattern "01234567-89ab-cdef-0123-456789abcdef" ≡ true
unfolding attempt_pattern
dashed_id = refl

upper_case : attempt_pattern "0123456789ABCDEF0123456789ABCDEF" ≡ false
unfolding attempt_pattern
upper_case = refl

-- The registry after the first message. To unfold it opens the calls that the examples make.
began : Registry
unfolding apply apply_valid begin resume write commit merge fresh goes_back expire expire_one sweep
    forget lease_over retention_over lost finish_capture end_captures lookup insert erase terminal
    valid_message valid_operation valid_states valid_harness attempt_pattern out_of_range
    update_capture measure or_empty follows regresses valid_capture in_range coherent valid_phase
    capture_terminal end_capture ◌+ℤ◌
began = (apply 1000 beginning (new "i")).0

began-IsSound : IsSound began
began-IsSound = unfold began in apply-IsSound 1000 beginning (new "i") (new-IsSound "i")

valid_messages : (valid_message beginning ≡ true) × (valid_message submitting ≡ true)
unfolding began
valid_messages = (refl, refl)

began_attempt : Attempt
began_attempt = begun 1000 beginning

there : lookup id (expire 2000 began).attempts ≡ some began_attempt
unfolding began began_attempt
there = refl

-- At the end of its lease, 15 s after the last message, the attempt is interrupted.
lease_ends :
    Option.map (λ (a : Attempt). a.stage) (lookup id (expire 16000 began).attempts)
    ≡ some "interrupted"
unfolding began
lease_ends = refl

abbrev script : List (ℕ × Call)
script =
    (1000, send beginning)
    ∷ (1500, report id "pi" measuring)
    ∷ (2000, send submitting)
    ∷ (3000, stop)
    ∷ (4000, look)
    ∷ []

run-IsSound_example : IsSound (run (new "i") script)
run-IsSound_example = run-IsSound "i" script

apply_refused_example :
    (apply 2000 beginning began).0 ≡ (if valid_message beginning then expire 2000 began else began)
unfolding began
apply_refused_example = apply_refused 2000 beginning began conflict refl

apply-verdict_example : (apply 2000 beginning began).1 ≡ verdict beginning (expire 2000 began)
apply-verdict_example = apply-verdict 2000 beginning began began-IsSound

apply-begins_example :
    ((begun 1000 beginning).stage ≡ "waiting")
    × (((length (expire 1000 (new "i")).attempts < max_attempts)
          × ((apply 1000 beginning (new "i")).0.attempts
              ≡ insert id (begun 1000 beginning) (expire 1000 (new "i")).attempts)
          × ((apply 1000 beginning (new "i")).0.captures ≡ (expire 1000 (new "i")).captures))
        ⊎ ((gone : String) × (length (expire 1000 (new "i")).attempts ≡ max_attempts)
            × ((gone == "") ≡ false)
            × ((apply 1000 beginning (new "i")).0.captures
                ≡ erase gone (expire 1000 (new "i")).captures)
            × IsOldest (expire 1000 (new "i")).attempts gone
            × Replaces id
                (begun 1000 beginning)
                gone
                (expire 1000 (new "i"))
                (apply 1000 beginning (new "i")).0))
unfolding began
apply-begins_example = apply-begins 1000 beginning (new "i") (new-IsSound "i") refl refl

update_capture_example :
    ((update_capture 2000 id "pi" measuring began).1 ≡ none
      → (attempt_pattern id ≡ true)
        × (valid_capture "pi" measuring ≡ true)
        × Stores id "pi" measuring
            (expire 2000 began)
            (update_capture 2000 id "pi" measuring began).0)
    × ((e : ProgressError)
        → (update_capture 2000 id "pi" measuring began).1 ≡ some e
        → (update_capture 2000 id "pi" measuring began).0 ≡ (
            if attempt_pattern id && valid_capture "pi" measuring
            then expire 2000 began
            else began))
update_capture_example = update_capture_lem 2000 id "pi" measuring began

measuring_taken : (update_capture 2000 id "pi" measuring began).1 ≡ none
unfolding began
measuring_taken = refl
