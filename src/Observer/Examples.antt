-- ===== src/Observer/Examples.antt =====
-- An observer whose delivery fails after two harnesses were collected.
use tokeninsights.Prelude.{String, true, false, List, [], ◌∷◌, ◌≡◌, refl, All, map}
use tokeninsights.Prelude.Int.{pos}
use tokeninsights.CollectorProgress.Message.{
  Message, valid_message, attempt_pattern, valid_harness, out_of_range,
}
use tokeninsights.Observer.{
  Progress, Report, collected, delivered, ticked, first_message, heartbeat, collection, delivery,
  finish, observe, observe_all,
}
use tokeninsights.Observer.Published.{IsInRange, messages-valid}

abbrev id : String
id = "0123456789abcdef0123456789abcdef"

abbrev progress : Progress
progress = record { batches = pos 2; accepted = pos 40; pending_known = true; pending = pos 3 }

progress-IsInRange : IsInRange progress
unfolding out_of_range
progress-IsInRange = record { batches = refl; accepted = refl; pending = refl; known = refl }

abbrev reports : List Report
reports =
    collected "" "waiting"
    ∷ collected "pi" "syncing"
    ∷ ticked
    ∷ collected "codex" "synced"
    ∷ delivered progress
    ∷ []

stages_seen :
    map (λ (m : Message). m.stage) (observe_all reports (first_message id)).0
    ≡ "waiting" ∷ "capturing" ∷ "" ∷ "capturing" ∷ "submitting" ∷ []
unfolding observe_all observe collection delivery heartbeat first_message
stages_seen = refl

messages-valid_example :
    (valid_message (first_message id) ≡ true)
    × All (λ message. valid_message message ≡ true) (observe_all reports (first_message id)).0
    × (valid_message
          (finish progress true true false (pos 0) (observe_all reports (first_message id)).1)
        ≡ true)
unfolding attempt_pattern valid_harness
messages-valid_example =
    messages-valid id refl reports progress true true false (pos 0)
      (refl, (refl, (tt, (refl, (progress-IsInRange, tt))))) progress-IsInRange
