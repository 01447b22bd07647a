-- ===== src/CollectorProgress/Registry/Effects.antt =====
-- `Apply`: what a message that is taken does to the attempts.
use tokeninsights.Prelude.{
  ℕ, ◌+◌, String, true, false, none, some, ◌≡◌, refl, ap, ◌∙◌, ◌<◌, ◌≤◌, arith, eq_iff, Bool-cases,
  inl, inr, ◌==◌, string_eq, if◌then◌else◌, length, leb, ◌⊎◌,
}
use tokeninsights.Prelude.Int.{◌≤ℤ◌}
use tokeninsights.Prelude.Maps.{lookup, insert, erase, lookup-insert, lookup-erase}
use tokeninsights.CollectorProgress.Message.{Message, terminal, valid_message, valid_operation}
use tokeninsights.CollectorProgress.Registry.{
  Attempt, Registry, expire, fresh, merge, goes_back, write, commit, forget, oldest_from, evict,
  begin, resume, apply_valid, apply, lease_duration, max_attempts,
}
use tokeninsights.CollectorProgress.Registry.Sound.{IsSound}
use tokeninsights.CollectorProgress.Registry.Oldest.{IsOldest, oldest_from-IsOldest}
use tokeninsights.CollectorProgress.Registry.Preserved.{IsSound-named}
use tokeninsights.CollectorProgress.Registry.Swept.{expire-IsSound}
use tokeninsights.CollectorProgress.Registry.Slots.{
  leased, merge-live, merge-ended, valid-operation,
}
use tokeninsights.CollectorProgress.Registry.Outcomes.{stored, taken, write_done}

resume_done :
    (now : ℕ) (m : Message) (a : Attempt) (r : Registry)
    → (resume now m (some a) r).1 ≡ none
    → (terminal a.stage ≡ false)
      × ((resume now m (some a) r).0.attempts
          ≡ insert m.attempt_id (stored now m (taken m a)) r.attempts)
      × (((m.operation == "heartbeat") ≡ true) ⊎ (goes_back m a ≡ false))
unfolding resume
resume_done now m a r h = elim (Bool-cases (terminal a.stage)) [
  | inl e ↦ absurd (ground (arith, e))
  | inr e ↦ rw e (refl, (write_done now m a r (rw e at h)).0, (write_done now m a r (rw e at h)).1)
]

-- The message goes to an attempt that is there: it is the message of no `begin`.
apply_on :
    (now : ℕ) (m : Message) (a : Attempt) (r : Registry)
    → lookup m.attempt_id (expire now r).attempts ≡ some a
    → (apply now m r).1 ≡ none
    → (valid_message m ≡ true)
      × ((m.operation == "begin") ≡ false)
      × (apply now m r ≡ resume now m (some a) (expire now r))
unfolding apply apply_valid begin
apply_on now m a r at' h = ground (arith, at')

forward :
    (m : Message) (a : Attempt)
    → goes_back m a ≡ false
    → (a.acknowledged_batches ≤ℤ m.acknowledged_batches)
      × (a.acknowledged_entries ≤ℤ m.acknowledged_entries)
unfolding goes_back
forward m a h = ground arith

-- How an attempt may go on: the counts of what was acknowledged never fall, the lease begins anew,
-- the start is kept, and it ends exactly by a `finish`. A heartbeat touches the lease alone.
pub record GoesOn (now : ℕ) (m : Message) (old new : Attempt) : Type 0 where
  pub was_live : terminal old.stage ≡ false
  pub batches : old.acknowledged_batches ≤ℤ new.acknowledged_batches
  pub entries : old.acknowledged_entries ≤ℤ new.acknowledged_entries
  pub started : new.started_at_ms ≡ old.started_at_ms
  pub updated : new.updated_at_ms ≡ now
  pub lease : new.expires_at_ms ≡ now + lease_duration
  pub ends : terminal new.stage ≡ (m.operation == "finish")
  pub beats : (m.operation == "heartbeat") ≡ true → new ≡ leased now old

beat_only : (s : String) → (s == "heartbeat") ≡ true → (s == "finish") ≡ false
beat_only s h = rw ((eq_iff s "heartbeat").0 h) refl

begin_only :
    (s : String) → (s == "begin") ≡ true → ((s == "finish") ≡ false) × ((s == "heartbeat") ≡ false)
begin_only s h = rw ((eq_iff s "begin").0 h) (refl, refl)

goes_on :
    (now : ℕ) (m : Message) (a : Attempt)
    → valid_message m ≡ true
    → terminal a.stage ≡ false
    → (((m.operation == "heartbeat") ≡ true) ⊎ (goes_back m a ≡ false))
    → GoesOn now m a (stored now m (taken m a))
unfolding merge
goes_on now m a valid live how = elim (Bool-cases (m.operation == "heartbeat")) [
  | inl beat ↦
      let still = beat_only m.operation beat in rw (beat, still) (ground (arith, beat, still))
  | inr other ↦
      let onward = forward m a (ground (arith, how, other)) in
      elim (Bool-cases (m.operation == "finish")) [
        | inl finish ↦
            rw (other, finish) (ground (arith, other, finish, onward, merge-ended m a valid finish))
        | inr more ↦
            rw (other, more)
              (ground (arith, other, more, onward, merge-live m a valid other more live))
      ]
]

-- A message that is taken for an attempt that is there makes it go on, and touches no other one.
pub apply-GoesOn :
    (now : ℕ) (m : Message) (a : Attempt) (r : Registry)
    → lookup m.attempt_id (expire now r).attempts ≡ some a
    → (apply now m r).1 ≡ none
    → (b : Attempt) × GoesOn now m a b
      × ((apply now m r).0.attempts ≡ insert m.attempt_id b (expire now r).attempts)
apply-GoesOn now m a r at' h =
    let (valid, _, same) = apply_on now m a r at' h in
    let done = resume_done now m a (expire now r) (rw same at h) in
    (stored now m (taken m a), goes_on now m a valid done.0 done.2, rw same done.1)

evict_done :
    (now : ℕ) (m : Message) (oldest : String) (r : Registry)
    → (evict now m oldest r).1 ≡ none
    → ((oldest == "") ≡ false)
      × (evict now m oldest r ≡ write now m (fresh now m.attempt_id) (forget oldest r))
unfolding evict
evict_done now m oldest r h = ground arith

apply_new :
    (now : ℕ) (m : Message) (r : Registry)
    → lookup m.attempt_id (expire now r).attempts ≡ none
    → (apply now m r).1 ≡ none
    → (valid_message m ≡ true)
      × ((m.operation == "begin") ≡ true)
      × (apply now m r ≡ begin now m none (expire now r))
unfolding apply apply_valid resume
apply_new now m r at' h = ground (arith, at')

-- The attempt that a `begin` adds.
abbrev pub begun : ℕ → Message → Attempt
begun now m = leased now (merge m (fresh now m.attempt_id))

begun_lem :
    (now : ℕ) (m : Message)
    → valid_message m ≡ true
    → (m.operation == "begin") ≡ true
    → (stored now m (taken m (fresh now m.attempt_id)) ≡ begun now m)
      × ((begun now m).stage ≡ "waiting")
unfolding merge fresh valid_operation
begun_lem now m valid b =
    rw ((begin_only m.operation b).0, (begin_only m.operation b).1)
      (refl, ground (arith, valid-operation m valid, b, eq_iff m.stage "waiting"))

-- The registry `new` has the attempts of `old` but for the one under `id`, which is `a`, and for
-- the one under `gone`, which is not there.
abbrev pub Replaces : String → Attempt → String → Registry → Registry → Type 0
Replaces id a gone old new =
    (j : String)
    → lookup j new.attempts
      ≡ (if id == j then some a else if gone == j then none else lookup j old.attempts)

begin_evicting :
    (now : ℕ) (m : Message) (r : Registry) (gone : String)
    → valid_message m ≡ true
    → (m.operation == "begin") ≡ true
    → (write now m (fresh now m.attempt_id) (forget gone r)).1 ≡ none
    → Replaces m.attempt_id
        (begun now m)
        gone
        r
        (write now m (fresh now m.attempt_id) (forget gone r)).0
unfolding forget
begin_evicting now m r gone valid b h j =
    rw
      ((write_done now m (fresh now m.attempt_id) (forget gone r) h).0, (begun_lem now m valid b).0)
      (ground (
        arith,
        lookup-insert m.attempt_id j (begun now m) (erase gone r.attempts),
        lookup-erase gone j r.attempts,
      ))

fills : (n : ℕ) → leb max_attempts n ≡ true → n ≤ max_attempts → n ≡ max_attempts
fills n full bounded = ground arith

begin_captures :
    (now : ℕ) (m : Message) (a : Attempt) (r : Registry)
    → (m.operation == "begin") ≡ true
    → (write now m a r).1 ≡ none
    → (write now m a r).0.captures ≡ r.captures
unfolding write commit
begin_captures now m a r b h = ground (arith, begin_only m.operation b)

-- A `begin` that is taken adds its attempt in stage "waiting". If the registry had room once it was swept, nothing
-- else of the swept registry changes, neither an attempt nor a measurement; if it was full, it drops one
-- terminal attempt with its measurements, no other terminal one having ended before it.
pub apply-begins :
    (now : ℕ) (m : Message) (r : Registry)
    → IsSound r
    → lookup m.attempt_id (expire now r).attempts ≡ none
    → (apply now m r).1 ≡ none
    → ((begun now m).stage ≡ "waiting")
      × (((length (expire now r).attempts < max_attempts)
            × ((apply now m r).0.attempts
                ≡ insert m.attempt_id (begun now m) (expire now r).attempts)
            × ((apply now m r).0.captures ≡ (expire now r).captures))
          ⊎ ((gone : String) × (length (expire now r).attempts ≡ max_attempts)
              × ((gone == "") ≡ false)
              × ((apply now m r).0.captures ≡ erase gone (expire now r).captures)
              × IsOldest (expire now r).attempts gone
              × Replaces m.attempt_id (begun now m) gone (expire now r) (apply now m r).0))
unfolding begin forget
apply-begins now m r s at' h =
    let swept = expire now r in
    let sound = expire-IsSound now r s in
    let (valid, b, same) = apply_new now m r at' h in
    let gone = oldest_from swept.attempts swept.attempts "" in
    elim (Bool-cases (leb max_attempts (length swept.attempts))) [
      | inr room ↦
          let w = write_done now m (fresh now m.attempt_id) swept (rw (same, room) at h) in
          (
            (begun_lem now m valid b).1,
            inl (
              ground (arith, room),
              rw (same, room)
                  (w.0
                    ∙ ap (λ a. insert m.attempt_id a swept.attempts) (begun_lem now m valid b).0),
              rw (same, room)
                  (begin_captures now m (fresh now m.attempt_id) swept b (rw (same, room) at h)),
            ),
          )
      | inl full ↦
          let e = evict_done now m gone swept (rw (same, full) at h) in
          (
            (begun_lem now m valid b).1,
            inr (
              gone,
              fills (length swept.attempts) full sound.bounded,
              e.0,
              rw (same, full, e.1)
                  (begin_captures now m (fresh now m.attempt_id) (forget gone swept) b
                    (rw (same, full, e.1) at h)),
              oldest_from-IsOldest swept.attempts sound.unique (IsSound-named swept sound),
              rw (same, full, e.1)
                  (begin_evicting now m swept gone valid b (rw (same, full, e.1) at h)),
            ),
          )
    ]
