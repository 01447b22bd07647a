-- ===== src/CollectorProgress/Registry/Slots.antt =====
-- One slot of the registry, an attempt with its measurements, under the methods.
use mathlib.Core.Option
use tokeninsights.Prelude.{
  ℕ, ◌+◌, String, true, false, ◌||◌, [], ◌∷◌, Option, none, some, ◌≡◌, refl, arith, eq_iff,
  Bool-cases, inl, inr, ◌==◌, string_eq, if◌then◌else◌,
}
use tokeninsights.Prelude.Maps.{Map, insert}
use tokeninsights.CollectorProgress.Message.{Message, terminal, valid_message, valid_operation}
use tokeninsights.CollectorProgress.Capture.{Capture, valid_capture}
use tokeninsights.CollectorProgress.Capture.Ending.{end_capture-valid, end_capture-terminal}
use tokeninsights.CollectorProgress.Registry.{
  Attempt, lost, lease_over, retention_over, end_captures, merge, interrupted_at, lease_duration,
}
use tokeninsights.CollectorProgress.Registry.Expiry.{expire_attempt, expire_captures, and_then}
use tokeninsights.CollectorProgress.Registry.Sound.{IsAttempt, AreMeasured, AreKept, IsSlot}

-- Measurements that are over suit every stage.
AreMeasured-end :
    (old stage now : String) (m : Map Capture)
    → AreMeasured old m
    → AreMeasured now (end_captures stage m)
unfolding end_captures
AreMeasured-end old stage now [] h = tt
AreMeasured-end old stage now ((harness, c) ∷ m) (valid, over, rest) = (
  end_capture-valid stage harness c valid,
  λ _. end_capture-terminal stage c,
  AreMeasured-end old stage now m rest,
)

-- A live stage asks nothing of the phases.
AreMeasured-live :
    (old now : String) (m : Map Capture)
    → terminal now ≡ false
    → AreMeasured old m
    → AreMeasured now m
AreMeasured-live old now [] live h = tt
AreMeasured-live old now ((harness, c) ∷ m) live (valid, over, rest) =
    (valid, λ t. cc, AreMeasured-live old now m live rest)

pub AreKept-end :
    (old stage now : String) (o : Option (Map Capture))
    → AreKept old o
    → AreKept now (Option.map (end_captures stage) o)
AreKept-end old stage now none h = tt
AreKept-end old stage now (some m) h = AreMeasured-end old stage now m h

pub AreKept-live :
    (old now : String) (o : Option (Map Capture))
    → terminal now ≡ false
    → AreKept old o
    → AreKept now o
AreKept-live old now none live h = tt
AreKept-live old now (some m) live h = AreMeasured-live old now m live h

pub AreMeasured-insert :
    (stage harness : String) (c : Capture) (m : Map Capture)
    → terminal stage ≡ false
    → valid_capture harness c ≡ true
    → AreMeasured stage m
    → AreMeasured stage (insert harness c m)
unfolding insert
AreMeasured-insert stage harness c [] live valid h = (valid, λ t. cc, tt)
AreMeasured-insert stage harness c ((i, d) ∷ m) live valid (old, over, rest) =
    elim (Bool-cases (i == harness)) [
      | inl e ↦ rw e (valid, (λ (t : terminal stage ≡ true). cc), rest)
      | inr e ↦ rw e (old, over, AreMeasured-insert stage harness c m live valid rest)
    ]

pub lost-IsAttempt : (j : String) (a : Attempt) → IsAttempt j a → IsAttempt j (lost a)
unfolding lost terminal
lost-IsAttempt j a h = ground arith

pub interrupted_at-IsAttempt :
    (now : ℕ) (j : String) (a : Attempt) → IsAttempt j a → IsAttempt j (interrupted_at now a)
unfolding interrupted_at terminal
interrupted_at-IsAttempt now j a h = ground arith

pub expire-IsSlot :
    (now : ℕ) (j : String) (o : Option Attempt) (kept : Option (Map Capture))
    → IsSlot j o kept
    → IsSlot j (and_then o (expire_attempt now)) (expire_captures now o kept)
unfolding expire_attempt expire_captures
expire-IsSlot now j none kept h = h
expire-IsSlot now j (some a) kept (h, k) = elim (Bool-cases (lease_over now a)) [
  | inl over ↦ elim (Bool-cases (retention_over now (lost a))) [
    | inl gone ↦ rw over (rw gone refl)
    | inr stays ↦
        rw over
          (rw stays (lost-IsAttempt j a h, AreKept-end a.stage "interrupted" (lost a).stage kept k))
  ]
  | inr live ↦ elim (Bool-cases (retention_over now a)) [
    | inl gone ↦ rw live (rw gone refl)
    | inr stays ↦ rw live (rw stays (h, k))
  ]
]

-- What `commit` stores for an attempt under its new lease, and at its end.
abbrev pub leased : ℕ → Attempt → Attempt
leased now a = record a { updated_at_ms = now; expires_at_ms = now + lease_duration }

abbrev pub ended : ℕ → Attempt → Attempt
ended now a = record (leased now a) { finished_at_ms = now }

-- An attempt that goes on under a new lease.
pub leased-IsAttempt :
    (now : ℕ) (j : String) (a : Attempt)
    → IsAttempt j a
    → terminal a.stage ≡ false
    → IsAttempt j (leased now a)
leased-IsAttempt now j a h live = ground arith

-- The validation holds the stage to the operation.
pub valid-operation : (m : Message) → valid_message m ≡ true → valid_operation m ≡ true
unfolding valid_message
valid-operation m h = ground arith

live_names :
    (terminal "" ≡ false)
    × (terminal "waiting" ≡ false)
    × (terminal "capturing" ≡ false)
    × (terminal "submitting" ≡ false)
unfolding terminal
live_names = (refl, refl, refl, refl)

live_stages :
    (stage old : String)
    → (stage == "" || stage == "waiting" || stage == "capturing" || stage == "submitting") ≡ true
    → terminal old ≡ false
    → terminal (if stage == "" then old else stage) ≡ false
live_stages stage old h live =
    ground (
      arith,
      live_names,
      eq_iff stage "waiting",
      eq_iff stage "capturing",
      eq_iff stage "submitting",
    )

pub finish_only :
    (s : String)
    → (s == "finish") ≡ true
    → ((s == "begin") ≡ false) × ((s == "heartbeat") ≡ false) × ((s == "update") ≡ false)
finish_only s h = rw ((eq_iff s "finish").0 h) (refl, refl, refl)

-- The message of a `begin` or an `update` that passed the validation leaves the attempt live.
pub merge-live :
    (m : Message) (a : Attempt)
    → valid_message m ≡ true
    → (m.operation == "heartbeat") ≡ false
    → (m.operation == "finish") ≡ false
    → terminal a.stage ≡ false
    → (terminal (merge m a).stage ≡ false) × (m.error_code ≡ "")
unfolding merge valid_operation
merge-live m a valid beat finish live =
    ground (arith, valid-operation m valid, live_stages m.stage a.stage, eq_iff m.error_code "")

pub merge-ended :
    (m : Message) (a : Attempt)
    → valid_message m ≡ true
    → (m.operation == "finish") ≡ true
    → (terminal (merge m a).stage ≡ true)
      × ((m.error_code == "") ≡ ((merge m a).stage == "accepted"))
unfolding merge valid_operation
merge-ended m a valid finish =
    ground (arith, valid-operation m valid, finish_only m.operation, eq_iff m.stage "", live_names)
