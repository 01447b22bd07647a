-- ===== src/CollectorProgress/Registry/Outcomes.antt =====
-- `Apply`: what each result says of the registry that it leaves.
use tokeninsights.Prelude.{
  ℕ, String, true, false, Option, none, some, ◌≡◌, refl, arith, Bool-cases, inl, inr, ◌==◌,
  string_eq, if◌then◌else◌, ◌⊎◌,
}
use tokeninsights.Prelude.Int.{pos, int_eq, int_beq_iff}
use tokeninsights.Prelude.Maps.{lookup, insert}
use tokeninsights.CollectorProgress.Message.{Message, valid_message, valid_operation}
use tokeninsights.CollectorProgress.Registry.{
  ProgressError, conflict, busy, Attempt, Registry, expire, fresh, merge, commit, goes_back, write,
  forget, oldest_from, evict, begin, resume, apply_valid, apply,
}
use tokeninsights.CollectorProgress.Registry.Expiry.{attempts-finish_capture}
use tokeninsights.CollectorProgress.Registry.Slots.{leased, ended, valid-operation}

-- The attempt that `commit` stores.
abbrev pub stored : ℕ → Message → Attempt → Attempt
stored now m a = if m.operation == "finish" then ended now a else leased now a

-- `commit` never fails, and writes its attempt alone.
pub commit_lem :
    (now : ℕ) (m : Message) (a : Attempt) (r : Registry)
    → ((commit now m a r).1 ≡ none)
      × ((commit now m a r).0.attempts ≡ insert m.attempt_id (stored now m a) r.attempts)
unfolding commit
commit_lem now m a r =
    (ground arith, ground (arith, attempts-finish_capture m.attempt_id a.stage r))

-- The attempt that `write` stores, if it does not refuse the message.
abbrev pub taken : Message → Attempt → Attempt
taken m a = if m.operation == "heartbeat" then a else merge m a

write_refused :
    (now : ℕ) (m : Message) (a : Attempt) (r : Registry) (e : ProgressError)
    → (write now m a r).1 ≡ some e
    → ((write now m a r).0 ≡ r)
      × (e ≡ conflict)
      × (goes_back m a ≡ true)
      × ((m.operation == "heartbeat") ≡ false)
unfolding write
write_refused now m a r e h = ground (arith, commit_lem now m a r, commit_lem now m (merge m a) r)

write_back :
    (now : ℕ) (m : Message) (a : Attempt) (r : Registry)
    → (m.operation == "heartbeat") ≡ false
    → goes_back m a ≡ true
    → (write now m a r).1 ≡ some conflict
unfolding write
write_back now m a r other back = rw (other, back) refl

pub write_done :
    (now : ℕ) (m : Message) (a : Attempt) (r : Registry)
    → (write now m a r).1 ≡ none
    → ((write now m a r).0.attempts ≡ insert m.attempt_id (stored now m (taken m a)) r.attempts)
      × (((m.operation == "heartbeat") ≡ true) ⊎ (goes_back m a ≡ false))
unfolding write
write_done now m a r h = elim (Bool-cases (m.operation == "heartbeat")) [
  | inl beat ↦ rw beat ((commit_lem now m a r).1, inl refl)
  | inr other ↦ elim (Bool-cases (goes_back m a)) [
    | inl back ↦ absurd (cc (h, write_back now m a r other back))
    | inr on ↦ rw (other, on) ((commit_lem now m (merge m a) r).1, inr refl)
  ]
]

pub begin_counts :
    (m : Message) (now : ℕ)
    → valid_message m ≡ true
    → (m.operation == "begin") ≡ true
    → (goes_back m (fresh now m.attempt_id) ≡ false)
unfolding goes_back fresh valid_operation
begin_counts m now valid b = ground (
  arith,
  valid-operation m valid,
  int_beq_iff m.acknowledged_batches (pos 0),
  int_beq_iff m.acknowledged_entries (pos 0),
)

evict_refused :
    (now : ℕ) (m : Message) (oldest : String) (r : Registry) (e : ProgressError)
    → valid_message m ≡ true
    → (m.operation == "begin") ≡ true
    → (evict now m oldest r).1 ≡ some e
    → ((evict now m oldest r).0 ≡ r) × (e ≡ busy) × ((oldest == "") ≡ true)
unfolding evict
evict_refused now m oldest r e valid b h = ground (
  arith,
  begin_counts m now valid b,
  write_refused now m (fresh now m.attempt_id) (forget oldest r) e,
)

begin_refused :
    (now : ℕ) (m : Message) (o : Option Attempt) (r : Registry) (e : ProgressError)
    → valid_message m ≡ true
    → (m.operation == "begin") ≡ true
    → (begin now m o r).1 ≡ some e
    → (begin now m o r).0 ≡ r
unfolding begin
begin_refused now m (some a) r e valid b h = refl
begin_refused now m none r e valid b h = ground (
  arith,
  evict_refused now m (oldest_from r.attempts r.attempts "") r e valid b,
  write_refused now m (fresh now m.attempt_id) r e,
)

resume_refused :
    (now : ℕ) (m : Message) (o : Option Attempt) (r : Registry) (e : ProgressError)
    → (resume now m o r).1 ≡ some e
    → (resume now m o r).0 ≡ r
unfolding resume
resume_refused now m none r e h = refl
resume_refused now m (some a) r e h = ground (arith, write_refused now m a r e)

-- A refused message changes nothing but what had expired: the registry is left as the sweep leaves
-- it, and as it was where the message is invalid.
pub apply_refused :
    (now : ℕ) (m : Message) (r : Registry) (e : ProgressError)
    → (apply now m r).1 ≡ some e
    → (apply now m r).0 ≡ (if valid_message m then expire now r else r)
unfolding apply apply_valid
apply_refused now m r e h =
    let swept = expire now r in
    let there = lookup m.attempt_id swept.attempts in
    ground (arith, begin_refused now m there swept e, resume_refused now m there swept e)
