-- ===== src/CollectorProgress/Snapshot/Order.antt =====
-- The attempts of a snapshot and their order.
use mathlib.Core.List.{Perm}
use mathlib.Core.List.Perm
use tokeninsights.Prelude.{
  codes, ℕ, ◌<◌, ◌-◌, String, true, false, List, [], ◌∷◌, Option, none, some, ◌≡◌, refl, sym, ◌∙◌,
  arith, eq_iff, Bool-cases, inl, inr, nat_eq, string_eq,
}
use tokeninsights.Prelude.Maps.{Map, lookup, Unique}
use tokeninsights.CollectorProgress.Message.{terminal}
use tokeninsights.CollectorProgress.Registry.{
  Attempt, Registry, expire, lost, lease_over, retention_over, terminal_retention,
}
use tokeninsights.CollectorProgress.Registry.Expiry.{expire_attempt, expire_pointwise, and_then}
use tokeninsights.CollectorProgress.Registry.Sound.{IsSound}
use tokeninsights.CollectorProgress.Registry.Swept.{expire-IsSound}
use tokeninsights.CollectorProgress.Snapshot.{
  codes_lt, before, values, place, sort, snapshot_locked, snapshot,
}

codes_lt_asym : (xs ys : List ℕ) → codes_lt xs ys ≡ true → codes_lt ys xs ≡ false
unfolding codes_lt
codes_lt_asym [] [] h = cc
codes_lt_asym [] (y ∷ ys) h = refl
codes_lt_asym (x ∷ xs) [] h = cc
codes_lt_asym (x ∷ xs) (y ∷ ys) h = ground (arith, codes_lt_asym xs ys)

codes_le_trans :
    (xs ys zs : List ℕ) → codes_lt ys xs ≡ false → codes_lt zs ys ≡ false → codes_lt zs xs ≡ false
unfolding codes_lt
codes_le_trans [] [] zs h k = k
codes_le_trans [] (y ∷ ys) [] h k = cc
codes_le_trans [] (y ∷ ys) (z ∷ zs) h k = refl
codes_le_trans (x ∷ xs) [] zs h k = cc
codes_le_trans (x ∷ xs) (y ∷ ys) [] h k = cc
codes_le_trans (x ∷ xs) (y ∷ ys) (z ∷ zs) h k = ground (arith, codes_le_trans xs ys zs)

before_asym : (a b : Attempt) → before a b ≡ true → before b a ≡ false
unfolding before
before_asym a b h = ground (arith, codes_lt_asym (codes a.attempt_id) (codes b.attempt_id))

before_le_trans : (a b c : Attempt) → before b a ≡ false → before c b ≡ false → before c a ≡ false
unfolding before
before_le_trans a b c h k =
    ground (arith, codes_le_trans (codes a.attempt_id) (codes b.attempt_id) (codes c.attempt_id))

abbrev pub All {ℓ} : (Attempt → Type ℓ) → List Attempt → Type ℓ
All P [] = Unit
All P (a ∷ as') = P a × All P as'

-- No attempt begins before one that stands in front of it, ties being broken by the id.
abbrev pub IsOrdered : List Attempt → Type 0
IsOrdered [] = Unit
IsOrdered (a ∷ as') = All (λ b. before b a ≡ false) as' × IsOrdered as'

All-place {ℓ} :
    (P : Attempt → Type ℓ) (a : Attempt) (as' : List Attempt)
    → P a
    → All P as'
    → All P (place a as')
unfolding place
All-place P a [] p h = (p, tt)
All-place P a (b ∷ bs) p (q, h) = elim (Bool-cases (before b a)) [
  | inl e ↦ rw e (q, All-place P a bs p h)
  | inr e ↦ rw e (p, (q, h))
]

All-sort {ℓ} : (P : Attempt → Type ℓ) (as' : List Attempt) → All P as' → All P (sort as')
unfolding sort
All-sort P [] h = tt
All-sort P (a ∷ as') (p, h) = All-place P a (sort as') p (All-sort P as' h)

All-le :
    (a b : Attempt) (bs : List Attempt)
    → before b a ≡ false
    → All (λ c. before c b ≡ false) bs
    → All (λ c. before c a ≡ false) bs
All-le a b [] e h = tt
All-le a b (c ∷ cs) e (k, h) = (before_le_trans a b c e k, All-le a b cs e h)

place-IsOrdered : (a : Attempt) (as' : List Attempt) → IsOrdered as' → IsOrdered (place a as')
unfolding place
place-IsOrdered a [] h = (tt, tt)
place-IsOrdered a (b ∷ bs) (hb, h) = elim (Bool-cases (before b a)) [
  | inl e ↦ rw e (All-place _ a bs (before_asym b a e) hb, place-IsOrdered a bs h)
  | inr e ↦ rw e ((e, All-le a b bs e hb), (hb, h))
]

sort-IsOrdered : (as' : List Attempt) → IsOrdered (sort as')
unfolding sort
sort-IsOrdered [] = tt
sort-IsOrdered (a ∷ as') = place-IsOrdered a (sort as') (sort-IsOrdered as')

place-perm : (a : Attempt) (as' : List Attempt) → Perm (place a as') (a ∷ as')
unfolding place
place-perm a [] = Perm.refl (a ∷ [])
place-perm a (b ∷ bs) = elim (Bool-cases (before b a)) [
  | inl e ↦ rw e (Perm.trans (Perm.cons b (place-perm a bs)) (Perm.swap a b bs))
  | inr e ↦ rw e (Perm.refl (a ∷ b ∷ bs))
]

sort-perm : (as' : List Attempt) → Perm (sort as') as'
unfolding sort
sort-perm [] = Perm.refl []
sort-perm (a ∷ as') = Perm.trans (place-perm a (sort as')) (Perm.cons a (sort-perm as'))

All-values {ℓ} :
    (P : Attempt → Type ℓ) (m : Map Attempt)
    → Unique m
    → ((j : String) (a : Attempt) → lookup j m ≡ some a → P a)
    → All P (values m)
unfolding values lookup
All-values P [] u h = tt
All-values P ((i, b) ∷ m) (fresh, u) h = (
  h i b (ground (arith, eq_iff i i)),
  All-values P m u (λ j a at'. h j a (ground (arith, eq_iff i j, at', fresh))),
)

-- A live attempt holds its lease, and an ended one is within the retention.
pub record IsCurrent (now : ℕ) (a : Attempt) : Type 0 where
  pub live : terminal a.stage ≡ false → now < a.expires_at_ms
  pub ended : terminal a.stage ≡ true → now - a.finished_at_ms < terminal_retention

lost_over : (a : Attempt) → terminal (lost a).stage ≡ true
unfolding lost terminal
lost_over a = refl

expire_attempt-IsCurrent :
    (now : ℕ) (o : Option Attempt) (b : Attempt)
    → and_then o (expire_attempt now) ≡ some b
    → IsCurrent now b
unfolding expire_attempt lease_over retention_over
expire_attempt-IsCurrent now none b h = cc
expire_attempt-IsCurrent now (some a) b h = ground (arith, lost_over a)

-- A snapshot lists the attempts that the sweep leaves, in order, and all of them are current.
pub snapshot_lem :
    (now : ℕ) (r : Registry)
    → IsSound r
    → IsOrdered (snapshot now r).1.attempts
      × Perm (snapshot now r).1.attempts (values (snapshot now r).0.attempts)
      × All (IsCurrent now) (snapshot now r).1.attempts
unfolding snapshot snapshot_locked
snapshot_lem now r h =
    let swept = expire now r in
    (
      sort-IsOrdered (values swept.attempts),
      sort-perm (values swept.attempts),
      All-sort (IsCurrent now) (values swept.attempts) (
          All-values (IsCurrent now) swept.attempts (expire-IsSound now r h).unique (λ j b at'.
            expire_attempt-IsCurrent now (lookup j r.attempts) b
              (sym (expire_pointwise now r j h.unique).0 ∙ at'))),
    )
