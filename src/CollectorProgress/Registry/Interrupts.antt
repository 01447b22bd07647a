-- ===== src/CollectorProgress/Registry/Interrupts.antt =====
-- `InterruptAll`, one attempt at a time.
use mathlib.Core.Option
use mathlib.Core.List.{foldl}
use tokeninsights.Prelude.{
  ℕ, ◌≤◌, String, [], ◌∷◌, Option, none, some, ◌≡◌, refl, arith, eq_iff, length, Bool-cases, inl,
  inr, ◌==◌, string_eq, if◌then◌else◌,
}
use tokeninsights.Prelude.Maps.{
  Map, lookup, insert, Unique, lookup-insert, insert-Unique, length-le_of_keys,
}
use tokeninsights.CollectorProgress.Message.{terminal}
use tokeninsights.CollectorProgress.Capture.{Capture}
use tokeninsights.CollectorProgress.Registry.{
  Attempt, Registry, end_captures, interrupted_at, interrupt_one, interrupt_all,
}
use tokeninsights.CollectorProgress.Registry.Expiry.{
  attempts-finish_capture, captures-finish_capture,
}
use tokeninsights.CollectorProgress.Registry.Sound.{IsSlot, IsSound}
use tokeninsights.CollectorProgress.Registry.Slots.{AreKept-end, interrupted_at-IsAttempt}

-- An attempt, and its measurements, as `InterruptAll` leaves them.
unfoldable pub stopped : ℕ → Attempt → Attempt
stopped now a = if terminal a.stage then a else interrupted_at now a

unfoldable pub stopped_captures : Option Attempt → Option (Map Capture) → Option (Map Capture)
stopped_captures none kept = kept
stopped_captures (some a) kept =
    if terminal a.stage then kept else Option.map (end_captures "interrupted") kept

-- One round, on the slot of its own attempt and on the others.
step_stop : ℕ → Attempt → Option Attempt → Option Attempt
step_stop now a old = if terminal a.stage then old else some (interrupted_at now a)

module _ (now : ℕ) (r : Registry) (id : String) (a : Attempt) (j : String) where
  abbrev marked : Registry
  marked = record r { attempts = insert id (interrupted_at now a) r.attempts }

  attempts-interrupt_one :
      lookup j (interrupt_one now r (id, a)).attempts
      ≡ (if id == j then step_stop now a (lookup j r.attempts) else lookup j r.attempts)
  unfolding interrupt_one step_stop
  attempts-interrupt_one = ground (
    arith,
    attempts-finish_capture id (interrupted_at now a).stage marked,
    lookup-insert id j (interrupted_at now a) r.attempts,
  )

  captures-interrupt_one :
      lookup j (interrupt_one now r (id, a)).captures
      ≡ (if id == j then stopped_captures (some a) (lookup j r.captures) else lookup j r.captures)
  unfolding interrupt_one stopped_captures interrupted_at
  captures-interrupt_one = ground (arith, captures-finish_capture id "interrupted" j marked)

  interrupt_one-Unique : Unique r.attempts → Unique (interrupt_one now r (id, a)).attempts
  unfolding interrupt_one
  interrupt_one-Unique u = elim (Bool-cases (terminal a.stage)) [
    | inl e ↦ rw e u
    | inr e ↦ rw e (
        rw (attempts-finish_capture id (interrupted_at now a).stage marked)
          (insert-Unique id (interrupted_at now a) r.attempts u))
  ]

attempts-foldl :
    (now : ℕ) (es : Map Attempt) (r : Registry) (j : String)
    → Unique es
    → lookup j (foldl (interrupt_one now) r es).attempts ≡ elim (lookup j es) [
      | none ↦ lookup j r.attempts
      | some a ↦ step_stop now a (lookup j r.attempts)
    ]
unfolding lookup
attempts-foldl now [] r j u = refl
attempts-foldl now ((id, a) ∷ es) r j u = ground (
  arith,
  eq_iff id j,
  attempts-foldl now es (interrupt_one now r (id, a)) j u.1,
  attempts-interrupt_one now r id a j,
)

captures-foldl :
    (now : ℕ) (es : Map Attempt) (r : Registry) (j : String)
    → Unique es
    → lookup j (foldl (interrupt_one now) r es).captures
      ≡ stopped_captures (lookup j es) (lookup j r.captures)
unfolding lookup stopped_captures
captures-foldl now [] r j u = refl
captures-foldl now ((id, a) ∷ es) r j u = ground (
  arith,
  eq_iff id j,
  captures-foldl now es (interrupt_one now r (id, a)) j u.1,
  captures-interrupt_one now r id a j,
)

foldl-Unique :
    (now : ℕ) (es : Map Attempt) (r : Registry)
    → Unique r.attempts
    → Unique (foldl (interrupt_one now) r es).attempts
foldl-Unique now [] r u = u
foldl-Unique now ((id, a) ∷ es) r u =
    foldl-Unique now es (interrupt_one now r (id, a)) (interrupt_one-Unique now r id a id u)

-- Where no id stands twice, `InterruptAll` leaves every attempt, an ended one as it was and a live
-- one interrupted now, and ends the measurements of those that it interrupts.
pub interrupt_all_pointwise :
    (now : ℕ) (r : Registry) (j : String)
    → Unique r.attempts
    → (lookup j (interrupt_all now r).attempts ≡ Option.map (stopped now) (lookup j r.attempts))
      × (lookup j (interrupt_all now r).captures
          ≡ stopped_captures (lookup j r.attempts) (lookup j r.captures))
unfolding interrupt_all stopped step_stop
interrupt_all_pointwise now r j u = (
  ground (arith, attempts-foldl now r.attempts r j u),
  ground (arith, captures-foldl now r.attempts r j u),
)

stop-IsSlot :
    (now : ℕ) (j : String) (o : Option Attempt) (kept : Option (Map Capture))
    → IsSlot j o kept
    → IsSlot j (Option.map (stopped now) o) (stopped_captures o kept)
unfolding stopped stopped_captures
stop-IsSlot now j none kept h = h
stop-IsSlot now j (some a) kept (h, k) = elim (Bool-cases (terminal a.stage)) [
  | inl e ↦ rw e (h, k)
  | inr e ↦ rw e (
    interrupted_at-IsAttempt now j a h,
    AreKept-end a.stage "interrupted" (interrupted_at now a).stage kept k,
  )
]

-- `InterruptAll` keeps a sound registry sound.
pub interrupt_all-IsSound : (now : ℕ) (r : Registry) → IsSound r → IsSound (interrupt_all now r)
interrupt_all-IsSound now r h = record {
  unique = keys;
  bounded = omega (arith, fewer, h.bounded);
  slots = λ j.
      rw
        ((interrupt_all_pointwise now r j h.unique).0, (interrupt_all_pointwise now r j h.unique).1)
        (stop-IsSlot now j (lookup j r.attempts) (lookup j r.captures) (h.slots j));
}
  where
    keys : Unique (interrupt_all now r).attempts
    keys = unfold interrupt_all in foldl-Unique now r.attempts r h.unique

    fewer : length (interrupt_all now r).attempts ≤ length r.attempts
    fewer =
        length-le_of_keys (interrupt_all now r).attempts r.attempts keys
          λ j e. ground (arith, (interrupt_all_pointwise now r j h.unique).0)
