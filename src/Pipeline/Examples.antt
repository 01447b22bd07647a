-- ===== src/Pipeline/Examples.antt =====
-- Runs of the window of `extractPrepared` (packages/core/pipeline/extract_prepare.go).
use tokeninsights.Prelude.{
  ℕ, ◌==◌, nat_eq, string_eq, if◌then◌else◌, String, ◌*◌, ◌≤◌, true, false, List, [], ◌∷◌, ◌++◌,
  none, some, length, ◌≡◌, refl, arith, is_none,
}
use tokeninsights.Prelude.Int.{pos}
use tokeninsights.CaptureReporter.Protocol.{
  seek, found, start, finish, save, settle, Ledger, AreAllowed,
}
use tokeninsights.CollectorProgress.Message.{
  Message, valid_harness, valid_message, terminal, valid_operation, valid_states, attempt_pattern,
  out_of_range,
}
use tokeninsights.CollectorProgress.Registry.{
  Attempt, Registry, apply, new, apply_valid, begin, resume, write, commit, merge, fresh, goes_back,
  expire, expire_one, sweep, forget, lease_over, retention_over, finish_capture, end_captures,
  or_empty,
}
use tokeninsights.Prelude.Maps.{lookup, insert, erase}
use tokeninsights.Pipeline.{
  Pool, Prepared, Calls, Action, consumed, unissued, take, close, receive, call_next, step, run,
  open_pool, issue_first, set_status, writer_calls, raw_worker_count,
}
use tokeninsights.Pipeline.Counted.{tally}
use tokeninsights.CaptureReporter.Delivery.Together.{calls_for}
use tokeninsights.Pipeline.Window.{held}
use tokeninsights.Pipeline.Extraction.{
  ending, run-AreAllowed, run-IsBounded, run_ends_lem, GoesOnOrEnds,
}

-- Five sources of two harnesses, for two workers.
abbrev sources : List ℕ
sources = 0 ∷ 0 ∷ 1 ∷ 0 ∷ 1 ∷ []

abbrev fine : Prepared
fine = record {
  prepare_failed = false;
  commit_failed = false;
  count = pos 7;
  save_failed = none;
  quarantined = false;
}

abbrev corrupt : Prepared
corrupt = record {
  prepare_failed = true;
  commit_failed = false;
  count = pos 0;
  save_failed = some false;
  quarantined = false;
}

-- The second source is read before the first; a reader takes the third while the writer saves the first; the capture
-- is interrupted after the second is consumed.
abbrev actions : List Action
actions =
    take
    ∷ take
    ∷ close 1
    ∷ close 0
    ∷ receive fine
    ∷ call_next true
    ∷ call_next true
    ∷ receive corrupt
    ∷ call_next true
    ∷ take
    ∷ call_next false
    ∷ close 2
    ∷ receive fine
    ∷ call_next false
    ∷ call_next false
    ∷ []

abbrev after : Pool
after = record {
  jobs =
      record { harness = 0; status = consumed }
      ∷ record { harness = 0; status = consumed }
      ∷ record { harness = 1; status = consumed }
      ∷ record { harness = 0; status = unissued }
      ∷ record { harness = 1; status = unissued }
      ∷ [];
  issued = 3;
  taken = 3;
  completed = 3;
  writing = [];
}

abbrev made : Calls
made =
    (0, start)
    ∷ (0, start)
    ∷ (0, finish)
    ∷ (0, finish)
    ∷ (0, save)
    ∷ (0, settle (pos 7) false false)
    ∷ (0, save)
    ∷ (1, start)
    ∷ (0, settle (pos 0) true true)
    ∷ (1, finish)
    ∷ (1, save)
    ∷ (1, settle (pos 7) false false)
    ∷ []

run-made : run (open_pool (raw_worker_count 2 5) sources) actions ≡ some (after, made)
unfolding run step open_pool issue_first set_status writer_calls raw_worker_count
run-made = refl

-- A source is not consumed before it is read, and none is taken that is not issued.
early_consumed : is_none (run (open_pool 2 sources) (take ∷ receive fine ∷ [])) ≡ true
unfolding run step open_pool issue_first set_status writer_calls
early_consumed = refl

third_taken : is_none (run (open_pool 2 sources) (take ∷ take ∷ take ∷ [])) ≡ true
unfolding run step open_pool issue_first set_status writer_calls
third_taken = refl

run-AreAllowed_example :
    AreAllowed Ledger.fresh (seek ∷ found 3 ∷ calls_for 0 made ++ ending true after)
run-AreAllowed_example = run-AreAllowed 2 0 sources true actions after made run-made (omega arith)

run-IsBounded_example : (tally held after.jobs ≤ raw_worker_count 2 5) × (raw_worker_count 2 5 ≤ 4)
run-IsBounded_example = run-IsBounded 2 sources actions after made run-made

run_ends_example :
    (length actions ≤ 6 * length sources) × GoesOnOrEnds (length sources) actions after true fine
run_ends_example = run_ends_lem 2 sources actions after made true fine run-made

abbrev id : String
id = "0123456789abcdef0123456789abcdef"

abbrev beginning : Message
beginning = record {
  operation = "begin";
  attempt_id = id;
  stage = "waiting";
  harnesses = [];
  acknowledged_batches = pos 0;
  acknowledged_entries = pos 0;
  pending_known = false;
  pending = pos 0;
  error_code = "";
}

-- The registry after the first message. To unfold it opens the calls that the examples make.
began : Registry
unfolding apply apply_valid begin resume write commit merge fresh goes_back expire expire_one sweep
    forget lease_over retention_over finish_capture end_captures lookup insert erase terminal
    valid_message valid_operation valid_states valid_harness attempt_pattern out_of_range or_empty
began = (apply 1000 beginning (new "i")).0

waits : Attempt
waits = record (fresh 1000 id) { updated_at_ms = 1000; expires_at_ms = 16000 }

abbrev names : ℕ → String
names h = if h == 0 then "pi" else "codex"
