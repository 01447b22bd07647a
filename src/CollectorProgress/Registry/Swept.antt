-- ===== src/CollectorProgress/Registry/Swept.antt =====
-- The sweep, and a change of one entry, on a sound registry.
use mathlib.Core.List.{foldl}
use tokeninsights.Prelude.{
  ℕ, ◌≤◌, ◌<◌, String, true, [], ◌∷◌, Option, none, some, ◌≡◌, sym, subst, arith, length, eq_iff,
  Bool-cases, inl, inr, is_none, ◌==◌, string_eq, if◌then◌else◌,
}
use tokeninsights.Prelude.Maps.{
  Map, lookup, insert, Unique, lookup-insert, insert-Unique, erase-Unique, length-insert,
  length-le_of_keys,
}
use tokeninsights.CollectorProgress.Capture.{Capture}
use tokeninsights.CollectorProgress.Registry.{
  lease_over, retention_over, Attempt, Registry, lost, finish_capture, forget, sweep, expire_one,
  expire, max_attempts,
}
use tokeninsights.CollectorProgress.Registry.Expiry.{expire_pointwise, attempts-finish_capture}
use tokeninsights.CollectorProgress.Registry.Sound.{IsAttempt, AreKept, IsSlot, IsSound}
use tokeninsights.CollectorProgress.Registry.Slots.{expire-IsSlot}

sweep-Unique :
    (now : ℕ) (id : String) (a : Attempt) (r : Registry)
    → Unique r.attempts
    → Unique (sweep now id a r).attempts
unfolding sweep forget
sweep-Unique now id a r u = elim (Bool-cases (retention_over now a)) [
  | inl e ↦ rw e (erase-Unique id r.attempts u)
  | inr e ↦ rw e u
]

expire_one-Unique :
    (now : ℕ) (r : Registry) (id : String) (a : Attempt)
    → Unique r.attempts
    → Unique (expire_one now r (id, a)).attempts
unfolding expire_one
expire_one-Unique now r id a u = elim (Bool-cases (lease_over now a)) [
  | inl e ↦
      let marked : Registry = record r { attempts = insert id (lost a) r.attempts } in
      rw e (
        sweep-Unique now id (lost a) (finish_capture id (lost a).stage marked) (
          rw (attempts-finish_capture id (lost a).stage marked)
            (insert-Unique id (lost a) r.attempts u)))
  | inr e ↦ rw e (sweep-Unique now id a r u)
]

expire-Unique :
    (now : ℕ) (es : Map Attempt) (r : Registry)
    → Unique r.attempts
    → Unique (foldl (expire_one now) r es).attempts
expire-Unique now [] r u = u
expire-Unique now ((id, a) ∷ es) r u =
    expire-Unique now es (expire_one now r (id, a)) (expire_one-Unique now r id a u)

-- Dropping what is over keeps the registry sound.
pub expire-IsSound : (now : ℕ) (r : Registry) → IsSound r → IsSound (expire now r)
expire-IsSound now r h = record {
  unique = keys;
  bounded = omega (arith, fewer, h.bounded);
  slots = λ j.
      rw ((expire_pointwise now r j h.unique).0, (expire_pointwise now r j h.unique).1)
        (expire-IsSlot now j (lookup j r.attempts) (lookup j r.captures) (h.slots j));
}
  where
    keys : Unique (expire now r).attempts
    keys = unfold expire in expire-Unique now r.attempts r h.unique

    fewer : length (expire now r).attempts ≤ length r.attempts
    fewer =
        length-le_of_keys (expire now r).attempts r.attempts keys
          λ j e. ground (arith, (expire_pointwise now r j h.unique).0)

-- A registry that differs from a sound one in the slot of `id`, where the new attempt is sound.
pub set_slot :
    (r : Registry) (id : String) (a : Attempt) (kept : Option (Map Capture)) (r' : Registry)
    → IsSound r
    → r'.attempts ≡ insert id a r.attempts
    → ((j : String) → lookup j r'.captures ≡ (if id == j then kept else lookup j r.captures))
    → IsAttempt id a
    → AreKept a.stage kept
    → (is_none (lookup id r.attempts) ≡ true → length r.attempts < max_attempts)
    → IsSound r'
set_slot r id a kept r' h same others new measured room = record {
  unique = rw same (insert-Unique id a r.attempts h.unique);
  bounded = rw same (ground (arith, length-insert id a r.attempts, h.bounded, room));
  slots = λ j. elim (Bool-cases (id == j)) [
    | inl e ↦
        rw (others j, same, lookup-insert id j a r.attempts, e)
          (let e' : id ≡ j = (eq_iff id j).0 e in rw (← e') (new, measured))
    | inr e ↦ rw (others j, same, lookup-insert id j a r.attempts, e) (h.slots j)
  ];
}

pub IsSlot-kept :
    (j : String) (o : Option Attempt) (kept : Option (Map Capture))
    → IsSlot j o kept
    → (old : String) × AreKept old kept
IsSlot-kept j none kept h = ("", subst (AreKept "") (sym h) tt)
IsSlot-kept j (some a) kept h = (a.stage, h.1)
