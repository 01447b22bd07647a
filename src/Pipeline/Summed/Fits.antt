-- ===== src/Pipeline/Summed/Fits.antt =====
-- The sources that the harnesses have left (packages/core/pipeline/extract_prepare.go), as the
-- writer goes through them.
use tokeninsights.Prelude.{
  ℕ, zero, suc, ◌+◌, ◌-◌, ◌≤◌, ◌<◌, not, List, [], ◌∷◌, none, some, ◌==◌, nat_eq, get_elem?, ◌≡◌,
  refl, subst, arith, Bool-cases, inl, inr,
}
use tokeninsights.Prelude.Int.{int_eq}
use tokeninsights.Pipeline.Calls.{bit}
use tokeninsights.Pipeline.Extraction.{sources_of}
use tokeninsights.Pipeline.Summed.{HarnessState, replace, pending, one_if}

-- The states of the harnesses from a place on have as many sources left as are to come.
abbrev pub Fits : ℕ → List HarnessState → List ℕ → Type 0
Fits i [] jobs = Unit
Fits i (x ∷ xs) jobs = (x.remaining ≡ sources_of i jobs) × Fits (i + 1) xs jobs

abbrev pub Above : ℕ → List ℕ → Type 0
Above i [] = Unit
Above i (k ∷ ks) = (i ≤ k) × Above i ks

pub bit_same : (k : ℕ) → bit (k == k) ≡ 1
bit_same k = ground arith

pub bit_other : (k i : ℕ) → (k ≡ i → ⊥) → bit (k == i) ≡ 0
bit_other k i apart = elim (Bool-cases (k == i)) [
  | inl e ↦ absurd (apart (ground arith))
  | inr e ↦ rw e refl
]

-- A source of an earlier harness does not matter.
pub earlier-Fits :
    (i k : ℕ) (xs : List HarnessState) (jobs : List ℕ)
    → k < i
    → Fits i xs jobs
    → Fits i xs (k ∷ jobs)
earlier-Fits i k [] jobs lt h = tt
earlier-Fits i k (x ∷ xs) jobs lt (e, h) =
    let none' = bit_other k i (λ e. omega arith) in
    (omega arith, earlier-Fits (i + 1) k xs jobs (omega arith) h)

passed-Fits :
    (i k : ℕ) (xs : List HarnessState) (jobs : List ℕ)
    → k < i
    → Fits i xs (k ∷ jobs)
    → Fits i xs jobs
passed-Fits i k [] jobs lt h = tt
passed-Fits i k (x ∷ xs) jobs lt (e, h) =
    let none' = bit_other k i (λ e. omega arith) in
    (omega arith, passed-Fits (i + 1) k xs jobs (omega arith) h)

shifted : (i k : ℕ) → i + suc k ≡ i + 1 + k
shifted i k = omega arith

pub beyond-Fits :
    (i k : ℕ) (xs : List HarnessState) (jobs : List ℕ)
    → get_elem? xs k ≡ none
    → Fits i xs ((i + k) ∷ jobs)
    → Fits i xs jobs
beyond-Fits i k [] jobs at h = tt
beyond-Fits i zero (x ∷ xs) jobs at h = cc
beyond-Fits i (suc k) (x ∷ xs) jobs at (e, h) =
    let none' = bit_other (i + suc k) i (λ e. omega arith) in
    (
      omega arith,
      beyond-Fits (i + 1) k xs jobs at (subst (λ n. Fits (i + 1) xs (n ∷ jobs)) (shifted i k) h),
    )

-- The source is one of its harness.
pub left_over :
    (i k : ℕ) (xs : List HarnessState) (jobs : List ℕ) (x : HarnessState)
    → get_elem? xs k ≡ some x
    → Fits i xs ((i + k) ∷ jobs)
    → 1 ≤ x.remaining
left_over i k [] jobs x at h = cc
left_over i zero (y ∷ xs) jobs x at (e, h) =
    let one = bit_here i in subst (λ z. 1 ≤ z.remaining) (some_injective at) (omega arith)
  where
    some_injective : {x y : HarnessState} → some x ≡ some y → x ≡ y
    some_injective e = cc

    bit_here : (i : ℕ) → bit (i + 0 == i) ≡ 1
    bit_here i = ground arith
left_over i (suc k) (y ∷ xs) jobs x at (e, h) =
    left_over (i + 1) k xs jobs x at (subst (λ n. Fits (i + 1) xs (n ∷ jobs)) (shifted i k) h)

pub replace-Fits :
    (i k : ℕ) (xs : List HarnessState) (jobs : List ℕ) (x y : HarnessState)
    → get_elem? xs k ≡ some x
    → y.remaining ≡ x.remaining - 1
    → Fits i xs ((i + k) ∷ jobs)
    → Fits i (replace k y xs) jobs
replace-Fits i k [] jobs x y at less h = tt
replace-Fits i zero (z ∷ xs) jobs x y at less (e, h) =
    let one = bit_here i in
    let same = remaining_same at in
    (
      omega arith,
      passed-Fits (i + 1) i xs jobs (omega arith)
          (subst (λ n. Fits (i + 1) xs (n ∷ jobs)) (plus_zero i) h),
    )
  where
    remaining_same : some z ≡ some x → z.remaining ≡ x.remaining
    remaining_same e = cc

    bit_here : (i : ℕ) → bit (i + 0 == i) ≡ 1
    bit_here i = ground arith

    plus_zero : (i : ℕ) → i + 0 ≡ i
    plus_zero i = omega arith
replace-Fits i (suc k) (z ∷ xs) jobs x y at less (e, h) =
    let none' = bit_other (i + suc k) i (λ e. omega arith) in
    (
      omega arith,
      replace-Fits (i + 1) k xs jobs x y at less
          (subst (λ n. Fits (i + 1) xs (n ∷ jobs)) (shifted i k) h),
    )

pub pending-replace :
    (k : ℕ) (xs : List HarnessState) (x y : HarnessState)
    → get_elem? xs k ≡ some x
    → pending (replace k y xs) + one_if (not (x.remaining == 0))
      ≡ pending xs + one_if (not (y.remaining == 0))
pending-replace k [] x y at = cc
pending-replace zero (z ∷ xs) x y at = let same = unsettled_same at in omega arith
  where
    unsettled_same :
        some z ≡ some x → one_if (not (z.remaining == 0)) ≡ one_if (not (x.remaining == 0))
    unsettled_same e = cc
pending-replace (suc k) (z ∷ xs) x y at = let rest = pending-replace k xs x y at in omega arith

pub none_pending : (i : ℕ) (xs : List HarnessState) → Fits i xs [] → pending xs ≡ 0
none_pending i [] h = refl
none_pending i (x ∷ xs) (e, h) = let rest = none_pending (i + 1) xs h in rw (e, rest) refl
