-- ===== src/Observer/Published.antt =====
-- The messages of an observer beside the validation of the registry.
use tokeninsights.Prelude.{
  String, Bool, true, false, not, ◌||◌, ◌&&◌, List, [], ◌∷◌, ◌≡◌, refl, All, ◌==◌, string_eq,
  one_of, Bool-cases, inl, inr,
}
use tokeninsights.Prelude.Int.{ℤ, pos, int_eq, ltb_ℤ}
use tokeninsights.CollectorProgress.Message.{
  Message, valid_message, valid_states, valid_operation, valid_harness, attempt_pattern,
  out_of_range, terminal, error_codes,
}
use tokeninsights.Observer.{
  Progress, Report, collected, delivered, ticked, first_message, heartbeat, collection, delivery,
  finish, observe, observe_all,
}
use tokeninsights.Observer.States.{new_states}

-- The counts lie in the range of the registry, and nothing is pending that is not known.
pub record IsInRange (p : Progress) : Type 0 where
  pub batches : out_of_range p.batches ≡ false
  pub accepted : out_of_range p.accepted ≡ false
  pub pending : out_of_range p.pending ≡ false
  pub known : (not p.pending_known && not (p.pending == pos 0)) ≡ false

abbrev pub IsReport : Report → Type 0
IsReport (collected harness status) = (harness == "" || valid_harness harness) ≡ true
IsReport (delivered p) = IsInRange p
IsReport ticked = Unit

-- The state between two reports: as a message of any operation it would have nothing wrong.
record IsState (id : String) (m : Message) : Type 0 where
  same_id : m.attempt_id ≡ id
  progress : IsInRange (record {
    batches = m.acknowledged_batches;
    accepted = m.acknowledged_entries;
    pending_known = m.pending_known;
    pending = m.pending;
  })
  states : valid_states m.harnesses ≡ true
  no_code : m.error_code ≡ ""

all_valid :
    (m : Message)
    → attempt_pattern m.attempt_id ≡ true
    → out_of_range m.acknowledged_batches ≡ false
    → out_of_range m.acknowledged_entries ≡ false
    → out_of_range m.pending ≡ false
    → (not m.pending_known && not (m.pending == pos 0)) ≡ false
    → valid_states m.harnesses ≡ true
    → one_of error_codes m.error_code ≡ true
    → valid_operation m ≡ true
    → valid_message m ≡ true
unfolding valid_message
all_valid m a b c d e f g h = rw (a, b, c, d, e, f, g, h) refl

abbrev is_update_stage : String → Bool
is_update_stage stage = stage == "waiting" || stage == "capturing" || stage == "submitting"

-- What `validMessage` wants of the last message.
abbrev is_end : String → String → Bool
is_end stage code =
    terminal stage
    && (not (stage == "accepted") || code == "")
    && (stage == "accepted" || not (code == ""))

collection_operation :
    (harness status : String) (m : Message) → (collection harness status m).operation ≡ "update"
unfolding collection
collection_operation harness status m = refl

collection_stage :
    (harness status : String) (m : Message)
    → is_update_stage (collection harness status m).stage ≡ true
unfolding collection
collection_stage harness status m = elim (Bool-cases (status == "waiting")) [
  | inl e ↦ rw e refl
  | inr e ↦ rw e refl
]

delivery_operation : (p : Progress) (m : Message) → (delivery p m).operation ≡ "update"
unfolding delivery
delivery_operation p m = refl

delivery_stage : (p : Progress) (m : Message) → is_update_stage (delivery p m).stage ≡ true
unfolding delivery
delivery_stage p m = refl

module _ (id : String) (known : attempt_pattern id ≡ true) where
  first-valid : valid_message (first_message id) ≡ true
  unfolding first_message valid_operation valid_states out_of_range
  first-valid = all_valid (first_message id) known refl refl refl refl refl refl refl

  heartbeat-valid : (m : Message) → IsState id m → valid_message (heartbeat m) ≡ true
  unfolding first_message valid_operation valid_states out_of_range heartbeat
  heartbeat-valid m h =
      all_valid (heartbeat m) (rw h.same_id known) refl refl refl refl refl refl refl

  update-valid :
      (m : Message)
      → IsState id m
      → m.operation ≡ "update"
      → is_update_stage m.stage ≡ true
      → valid_message m ≡ true
  unfolding valid_operation
  update-valid m h update stage =
      all_valid m (rw h.same_id known) h.progress.batches h.progress.accepted h.progress.pending
        h.progress.known h.states (rw h.no_code refl) (rw (update, stage, h.no_code) refl)

  collection-IsState :
      (harness status : String) (m : Message)
      → (harness == "" || valid_harness harness) ≡ true
      → IsState id m
      → IsState id (collection harness status m)
  unfolding collection
  collection-IsState harness status m ok h = record {
    same_id = h.same_id;
    progress = h.progress;
    states = new_states harness status m.harnesses ok h.states;
    no_code = h.no_code;
  }

  delivery-IsState :
      (p : Progress) (m : Message) → IsInRange p → IsState id m → IsState id (delivery p m)
  unfolding delivery
  delivery-IsState p m ok h = record {
    same_id = h.same_id;
    progress = ok;
    states = h.states;
    no_code = h.no_code;
  }

  observe-valid :
      (r : Report) (m : Message)
      → IsReport r
      → IsState id m
      → (valid_message (observe r m).0 ≡ true) × IsState id (observe r m).1
  unfolding observe
  observe-valid (collected harness status) m ok h =
      let after = collection-IsState harness status m ok h in
      (
        update-valid (collection harness status m) after (collection_operation harness status m)
            (collection_stage harness status m),
        after,
      )
  observe-valid (delivered p) m ok h =
      let after = delivery-IsState p m ok h in
      (update-valid (delivery p m) after (delivery_operation p m) (delivery_stage p m), after)
  observe-valid ticked m ok h = (heartbeat-valid m h, h)

  finished-valid :
      (p : Progress) (stage code : String) (m : Message)
      → IsInRange p
      → IsState id m
      → one_of error_codes code ≡ true
      → is_end stage code ≡ true
      → valid_message
          (record (delivery p m) { operation = "finish"; stage = stage; error_code = code })
        ≡ true
  unfolding delivery valid_operation
  finished-valid p stage code m ok h coded ends =
      all_valid _ (rw h.same_id known) ok.batches ok.accepted ok.pending ok.known h.states coded
        ends

  finish-valid :
      (p : Progress) (failing delivery_failing cancelled : Bool) (quarantined : ℤ) (m : Message)
      → IsInRange p
      → IsState id m
      → valid_message (finish p failing delivery_failing cancelled quarantined m) ≡ true
  unfolding finish terminal delivery
  finish-valid p failing delivery_failing cancelled quarantined m ok h =
      elim (Bool-cases (failing || ltb_ℤ (pos 0) quarantined)) [
        | inr fine ↦ rw fine (
            finished-valid p "accepted" m.error_code m ok h (rw h.no_code refl) (rw h.no_code refl))
        | inl bad ↦ elim (Bool-cases (failing && cancelled)) [
          | inl cut ↦ rw (bad, cut) (finished-valid p "interrupted" "cancelled" m ok h refl refl)
          | inr failed ↦ elim (Bool-cases delivery_failing) [
            | inl e ↦
                rw (bad, failed, e) (finished-valid p "failed" "submission_failed" m ok h refl refl)
            | inr e ↦
                rw (bad, failed, e) (finished-valid p "failed" "collection_failed" m ok h refl refl)
          ]
        ]
      ]

  observe_all-valid :
      (reports : List Report) (m : Message)
      → All IsReport reports
      → IsState id m
      → All (λ message. valid_message message ≡ true) (observe_all reports m).0
        × IsState id (observe_all reports m).1
  unfolding observe_all
  observe_all-valid [] m ok h = (tt, h)
  observe_all-valid (r ∷ reports) m (ok, rest) h =
      let (valid, after) = observe-valid r m ok h in
      let (all, last) = observe_all-valid reports (observe r m).1 rest after in ((valid, all), last)

  first-IsState : IsState id (first_message id)
  unfolding first_message out_of_range valid_states
  first-IsState = record {
    same_id = refl;
    progress = record { batches = refl; accepted = refl; pending = refl; known = refl };
    states = refl;
    no_code = refl;
  }

  -- Where the id is one of an attempt, the harnesses are known, the counts in range and nothing is
  -- pending that is not known, the registry takes as valid the first message, those of all reports
  -- and the last.
  pub messages-valid :
      (reports : List Report) (p : Progress) (failing delivery_failing cancelled : Bool)
      (quarantined : ℤ)
      → All IsReport reports
      → IsInRange p
      → (valid_message (first_message id) ≡ true)
        × All (λ message. valid_message message ≡ true) (observe_all reports (first_message id)).0
        × (valid_message (
              finish p failing delivery_failing cancelled quarantined
                (observe_all reports (first_message id)).1)
            ≡ true)
  messages-valid reports p failing delivery_failing cancelled quarantined ok range =
      let (all, last) = observe_all-valid reports (first_message id) ok first-IsState in
      (first-valid, all, finish-valid p failing delivery_failing cancelled quarantined _ range last)
