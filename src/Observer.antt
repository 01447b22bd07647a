-- ===== src/Observer.antt =====
-- packages/core/localruntime/observer.go: the messages that an observer publishes for its attempt.
-- An observer without a publisher publishes nothing and is left out; results of publishing are
-- dropped by the code.
pub mod States
pub mod Published
mod Examples
use tokeninsights.Prelude.{
  String, Bool, true, false, ◌||◌, ◌&&◌, List, [], ◌∷◌, ◌==◌, string_eq, if◌then◌else◌,
}
use tokeninsights.Prelude.Int.{ℤ, pos, ltb_ℤ}
use tokeninsights.Prelude.Maps.{Map, insert}
use tokeninsights.CollectorProgress.Message.{Message}

-- The message that `newObserver` publishes first.
unfoldable pub first_message : String → Message
first_message id = record {
  operation = "begin";
  attempt_id = id;
  stage = "waiting";
  harnesses = [];
  acknowledged_batches = pos 0;
  acknowledged_entries = pos 0;
  pending_known = false;
  pending = pos 0;
  error_code = "";
}

unfoldable pub heartbeat : Message → Message
heartbeat state = record (first_message state.attempt_id) { operation = "heartbeat"; stage = "" }

-- The state of a harness for the status of its collection.
unfoldable pub harness_state : String → String
harness_state status =
    if status == "synced"
    then "complete"
    else if status == "skipped"
    then "skipped"
    else if status == "failed"
    then "failed"
    else if status == "waiting"
    then "waiting"
    else "running"

-- `Collection`, with the harness and the status of the event.
unfoldable pub collection : String → String → Message → Message
collection harness status state = record state {
  operation = "update";
  stage = if status == "waiting" then "waiting" else "capturing";
  harnesses =
      if harness == ""
      then state.harnesses
      else insert harness (harness_state status) state.harnesses;
}

-- What is said of the delivery, in the fields of `DeliveryProgress` and of `Result`.
pub record Progress : Type 0 where
  pub batches : ℤ
  pub accepted : ℤ
  pub pending_known : Bool
  pub pending : ℤ

unfoldable pub delivery : Progress → Message → Message
delivery p state = record state {
  operation = "update";
  stage = "submitting";
  acknowledged_batches = p.batches;
  acknowledged_entries = p.accepted;
  pending_known = p.pending_known;
  pending = p.pending;
}

-- `Finish`: whether there is an error, whether it is of the delivery, whether the context was
-- cancelled, and how many sources are quarantined.
unfoldable pub finish : Progress → Bool → Bool → Bool → ℤ → Message → Message
finish p failing delivery_failing cancelled quarantined state =
    let accepted = record (delivery p state) { operation = "finish"; stage = "accepted" } in
    if failing || ltb_ℤ (pos 0) quarantined
    then if failing && cancelled
      then record accepted { stage = "interrupted"; error_code = "cancelled" }
      else record accepted {
        stage = "failed";
        error_code = if delivery_failing then "submission_failed" else "collection_failed";
      }
    else accepted

pub data Report : Type 0 where
  collected : String → String → Report
  delivered : Progress → Report
  ticked : Report

-- The message of a report, and the state after it.
unfoldable pub observe : Report → Message → Message × Message
observe (collected harness status) state =
    (collection harness status state, collection harness status state)
observe (delivered p) state = (delivery p state, delivery p state)
observe ticked state = (heartbeat state, state)

-- The messages of the reports in their order, and the state at the end.
unfoldable pub observe_all : List Report → Message → List Message × Message
observe_all [] state = ([], state)
observe_all (r ∷ reports) state =
    let (message, state') = observe r state in
    let (messages, last) = observe_all reports state' in (message ∷ messages, last)
