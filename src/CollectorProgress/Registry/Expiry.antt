-- ===== src/CollectorProgress/Registry/Expiry.antt =====
-- `expire`, one attempt at a time: the lease, the retention and the measurements.
use mathlib.Core.Option
use mathlib.Core.List.{foldl}
use tokeninsights.Prelude.{
  ℕ, String, ◌&&◌, [], ◌∷◌, Option, none, some, ◌≡◌, refl, arith, eq_iff, Option-cases, inl, inr,
  ◌==◌, string_eq, is_none, if◌then◌else◌,
}
use tokeninsights.Prelude.Maps.{Map, lookup, insert, Unique, lookup-insert, lookup-erase}
use tokeninsights.CollectorProgress.Capture.{Capture}
use tokeninsights.CollectorProgress.Registry.{
  Attempt, Registry, lost, lease_over, retention_over, end_captures, finish_capture, forget, sweep,
  expire_one, expire,
}

-- The attempt as `expire` leaves it, if it does.
unfoldable pub expire_attempt : ℕ → Attempt → Option Attempt
expire_attempt now a =
    let b = if lease_over now a then lost a else a in if retention_over now b then none else some b

-- The measurements of an attempt as `expire` leaves them.
unfoldable pub expire_captures : ℕ → Option Attempt → Option (Map Capture) → Option (Map Capture)
expire_captures now none measurements = measurements
expire_captures now (some a) measurements =
    if is_none (expire_attempt now a)
    then none
    else if lease_over now a
    then Option.map (end_captures "interrupted") measurements
    else measurements

pub attempts-finish_capture :
    (id stage : String) (r : Registry) → (finish_capture id stage r).attempts ≡ r.attempts
unfolding finish_capture
attempts-finish_capture id stage r = ground arith

pub captures-finish_capture :
    (id stage j : String) (r : Registry)
    → lookup j (finish_capture id stage r).captures ≡ (
        if id == j
        then Option.map (end_captures stage) (lookup j r.captures)
        else lookup j r.captures)
unfolding finish_capture
captures-finish_capture id stage j r = elim (Option-cases (lookup id r.captures)) [
  | inl e ↦ rw (e, finish_capture) (ground (arith, eq_iff id j))
  | inr (m, e) ↦ rw (e, finish_capture) (simp lookup-insert (ground (arith, eq_iff id j)))
]

attempts-sweep :
    (now : ℕ) (id : String) (a : Attempt) (r : Registry) (j : String)
    → lookup j (sweep now id a r).attempts
      ≡ (if retention_over now a && id == j then none else lookup j r.attempts)
unfolding sweep forget
attempts-sweep now id a r j = ground (arith, lookup-erase id j r.attempts)

captures-sweep :
    (now : ℕ) (id : String) (a : Attempt) (r : Registry) (j : String)
    → lookup j (sweep now id a r).captures
      ≡ (if retention_over now a && id == j then none else lookup j r.captures)
unfolding sweep forget
captures-sweep now id a r j = ground (arith, lookup-erase id j r.captures)

-- What the round for `a` makes of the entry `old` under its key.
step_entry : ℕ → Attempt → Option Attempt → Option Attempt
step_entry now a old =
    if lease_over now a
    then if retention_over now (lost a) then none else some (lost a)
    else if retention_over now a
    then none
    else old

step_measurements : ℕ → Attempt → Option (Map Capture) → Option (Map Capture)
step_measurements now a old =
    if lease_over now a
    then if retention_over now (lost a) then none else Option.map (end_captures "interrupted") old
    else if retention_over now a
    then none
    else old

module _ (now : ℕ) (r : Registry) (id : String) (a : Attempt) (j : String) where
  abbrev marked : Registry
  marked = record r { attempts = insert id (lost a) r.attempts }

  attempts-expire_one :
      lookup j (expire_one now r (id, a)).attempts
      ≡ (if id == j then step_entry now a (lookup j r.attempts) else lookup j r.attempts)
  unfolding expire_one step_entry
  attempts-expire_one = ground (
    arith,
    attempts-sweep now id (lost a) (finish_capture id (lost a).stage marked) j,
    attempts-sweep now id a r j,
    attempts-finish_capture id (lost a).stage marked,
    lookup-insert id j (lost a) r.attempts,
  )

  captures-expire_one :
      lookup j (expire_one now r (id, a)).captures
      ≡ (if id == j then step_measurements now a (lookup j r.captures) else lookup j r.captures)
  unfolding expire_one step_measurements lost
  captures-expire_one = ground (
    arith,
    captures-sweep now id (lost a) (finish_capture id (lost a).stage marked) j,
    captures-sweep now id a r j,
    captures-finish_capture id "interrupted" j marked,
  )

-- The walk over the entries `es`, each key standing once, acts on each key by its own round.
attempts-foldl :
    (now : ℕ) (es : Map Attempt) (r : Registry) (j : String)
    → Unique es
    → lookup j (foldl (expire_one now) r es).attempts ≡ elim (lookup j es) [
      | none ↦ lookup j r.attempts
      | some a ↦ step_entry now a (lookup j r.attempts)
    ]
unfolding lookup
attempts-foldl now [] r j u = refl
attempts-foldl now ((id, a) ∷ es) r j u = ground (
  arith,
  eq_iff id j,
  attempts-foldl now es (expire_one now r (id, a)) j u.1,
  attempts-expire_one now r id a j,
)

captures-foldl :
    (now : ℕ) (es : Map Attempt) (r : Registry) (j : String)
    → Unique es
    → lookup j (foldl (expire_one now) r es).captures ≡ elim (lookup j es) [
      | none ↦ lookup j r.captures
      | some a ↦ step_measurements now a (lookup j r.captures)
    ]
unfolding lookup
captures-foldl now [] r j u = refl
captures-foldl now ((id, a) ∷ es) r j u = ground (
  arith,
  eq_iff id j,
  captures-foldl now es (expire_one now r (id, a)) j u.1,
  captures-expire_one now r id a j,
)

-- `o >>= f`
abbrev pub and_then {ℓ κ} : {A : Type ℓ} {B : Type κ} → Option A → (A → Option B) → Option B
and_then none f = none
and_then (some a) f = f a

-- Where no id stands twice, `expire` leaves under each id what the lease and the retention make
-- of the attempt that stood there, and ends or drops the measurements with it.
pub expire_pointwise :
    (now : ℕ) (r : Registry) (j : String)
    → Unique r.attempts
    → (lookup j (expire now r).attempts ≡ and_then (lookup j r.attempts) (expire_attempt now))
      × (lookup j (expire now r).captures
          ≡ expire_captures now (lookup j r.attempts) (lookup j r.captures))
unfolding expire expire_attempt expire_captures step_entry step_measurements
expire_pointwise now r j u = (
  ground (arith, attempts-foldl now r.attempts r j u),
  ground (arith, captures-foldl now r.attempts r j u),
)
