-- ===== src/Prelude/Maps.antt =====
-- Go's `map[string]V` as an association list in no particular order.
use Prim.Native.Nat.{◌+◌, ◌≤◌, ◌<◌}
use Prim.Native.String.{String}
use mathlib.Core.Path.{◌≡◌, refl}
use mathlib.Core.Bool.{true, false}
use mathlib.Core.Option.{Option, none, some}
use mathlib.Core.List.{List, [], ◌∷◌}
use native.Mathlib.Omega.{arith}
use text.Mathlib.TextEquality.{eq_iff}
use mathlib.Core.Logic.{inl, inr}
use mathlib.Core.Path.{subst}
use tokeninsights.Prelude.Tests.{Bool-cases, ◌==◌, string_eq, if◌then◌else◌, is_none}
use tokeninsights.Prelude.Lists.{length, All}

abbrev pub Map {ℓ} : Type ℓ → Type ℓ
Map V = List (String × V)

module _ {ℓ} {V : Type ℓ} where
  -- m[k]
  unfoldable pub lookup : String → Map V → Option V
  lookup k [] = none
  lookup k ((other, v) ∷ rest) = if other == k then some v else lookup k rest

  -- m[k] = v
  unfoldable pub insert : String → V → Map V → Map V
  insert k v [] = (k, v) ∷ []
  insert k v ((other, w) ∷ rest) =
      if other == k then (k, v) ∷ rest else (other, w) ∷ insert k v rest

  -- delete(m, k)
  unfoldable pub erase : String → Map V → Map V
  erase k [] = []
  erase k ((j, v) ∷ m) = let rest = erase k m in if j == k then rest else (j, v) ∷ rest

  -- Every key stands once.
  abbrev pub Unique : Map V → Type 0
  Unique [] = Unit
  Unique ((k, v) ∷ m) = (is_none (lookup k m) ≡ true) × Unique m

  pub lookup-insert :
      (at' j : String) (v : V) (m : Map V)
      → lookup j (insert at' v m) ≡ (if at' == j then some v else lookup j m)
  unfolding insert lookup
  lookup-insert at' j v [] = refl
  lookup-insert at' j v ((other, w) ∷ rest) =
      ground (arith, lookup-insert at' j v rest, eq_iff other j, eq_iff other at', eq_iff at' j)

  pub lookup-erase :
      (k j : String) (m : Map V) → lookup j (erase k m) ≡ (if k == j then none else lookup j m)
  unfolding lookup erase
  lookup-erase k j [] = ground arith
  lookup-erase k j ((i, w) ∷ m) =
      ground (arith, eq_iff k j, eq_iff i k, eq_iff i j, lookup-erase k j m)

  pub insert-Unique : (k : String) (v : V) (m : Map V) → Unique m → Unique (insert k v m)
  unfolding insert lookup
  insert-Unique k v [] h = (refl, tt)
  insert-Unique k v ((i, w) ∷ m) h =
      ground (arith, eq_iff k i, eq_iff i k, insert-Unique k v m h.1, lookup-insert k i v m)

  pub erase-Unique : (k : String) (m : Map V) → Unique m → Unique (erase k m)
  unfolding erase
  erase-Unique k [] h = tt
  erase-Unique k ((i, w) ∷ m) h =
      ground (arith, eq_iff k i, eq_iff i k, erase-Unique k m h.1, lookup-erase k i m)

  pub length-insert :
      (k : String) (v : V) (m : Map V)
      → length (insert k v m) ≡ (if is_none (lookup k m) then length m + 1 else length m)
  unfolding insert lookup
  length-insert k v [] = refl
  length-insert k v ((i, w) ∷ m) = ground (arith, length-insert k v m)

  pub length-erase-le : (k : String) (m : Map V) → length (erase k m) ≤ length m
  unfolding erase
  length-erase-le k [] = omega arith
  length-erase-le k ((i, w) ∷ m) = ground (arith, length-erase-le k m)

  pub length-erase-lt :
      (k : String) (m : Map V) → is_none (lookup k m) ≡ false → length (erase k m) < length m
  unfolding erase lookup
  length-erase-lt k [] h = ground arith
  length-erase-lt k ((i, w) ∷ m) h = ground (arith, length-erase-lt k m, length-erase-le k m)

-- A map whose keys all stand in another one is no longer than that one.
pub length-le_of_keys {ℓ κ} :
    {V : Type ℓ} {W : Type κ} (m : Map V) (n : Map W)
    → Unique m
    → ((j : String) → is_none (lookup j n) ≡ true → is_none (lookup j m) ≡ true)
    → length m ≤ length n
unfolding lookup
length-le_of_keys [] n u sub = omega arith
length-le_of_keys ((k, v) ∷ m) n u sub =
    let smaller = length-le_of_keys m (erase k n) u.1 (λ j h. within j h) in
    let present = length-erase-lt k n (bounded k) in omega (arith, smaller, present)
  where
    bounded : (j : String) → is_none (lookup k n) ≡ false
    bounded j = ground (arith, sub k, eq_iff k k)

    within : (j : String) → is_none (lookup j (erase k n)) ≡ true → is_none (lookup j m) ≡ true
    within j h = ground (arith, sub j, eq_iff k j, lookup-erase k j n, u.0)

pub ruleset map_laws = (lookup-insert, lookup-erase)

-- What holds of every value.
abbrev pub AllValues {ℓ κ} : {V : Type ℓ} → (V → Type κ) → Map V → Type κ
AllValues Q m = All (λ entry. Q entry.1) m

module _ {ℓ κ} {V : Type ℓ} (Q : V → Type κ) where
  pub insert-AllValues :
      (k : String) (v : V) (m : Map V) → Q v → AllValues Q m → AllValues Q (insert k v m)
  unfolding insert
  insert-AllValues k v [] q h = (q, tt)
  insert-AllValues k v ((other, w) ∷ rest) q (p, h) = elim (Bool-cases (other == k)) [
    | inl same ↦ rw same (q, h)
    | inr apart ↦ rw apart (p, insert-AllValues k v rest q h)
  ]

  pub lookup-AllValues :
      (k : String) (m : Map V) (v : V) → AllValues Q m → lookup k m ≡ some v → Q v
  unfolding lookup
  lookup-AllValues k [] v h e = absurd (cc)
  lookup-AllValues k ((other, w) ∷ rest) v (p, h) e = elim (Bool-cases (other == k)) [
    | inl same ↦ subst Q (some_inj (rw same at e)) p
    | inr apart ↦ lookup-AllValues k rest v h (rw apart at e)
  ]
    where
      some_inj : some w ≡ some v → w ≡ v
      some_inj e = cc
