-- ===== src/Pipeline/Summed/Accounts.antt =====
-- How what the writer counts of the sources (packages/core/pipeline/extract_prepare.go) adds to
-- the summary.
use tokeninsights.Prelude.{
  ℕ, ◌+◌, ◌-◌, ◌≤◌, Bool, not, ◌&&◌, List, [], ◌∷◌, Option, none, some, ◌==◌, nat_eq, get_elem?,
  ◌≡◌, refl, subst, arith, ◌∙◌, Bool-cases, inl, inr,
}
use tokeninsights.Prelude.Int.{pos, int_eq}
use tokeninsights.Pipeline.{Prepared}
use tokeninsights.Pipeline.Summed.{
  HarnessState, Summary, settle_state, close_harness, settle_summary, account_at, account, pending,
  one_if, account_all,
}
use tokeninsights.Pipeline.Summed.Fits.{
  Fits, beyond-Fits, left_over, replace-Fits, pending-replace, none_pending,
}

-- The harnesses that a summary has counted.
abbrev pub harnesses_counted : Summary → ℕ
harnesses_counted s = s.synced + s.skipped + s.failed

-- A harness that has no source left is counted, and no other.
close_harness-harnesses_counted :
    (full_refresh : Bool) (x : HarnessState) (s : Summary)
    → harnesses_counted (close_harness full_refresh x s) + one_if (not (x.remaining == 0))
      ≡ harnesses_counted s + 1
unfolding close_harness
close_harness-harnesses_counted full_refresh x s = elim (Bool-cases (x.remaining == 0)) [
  | inr e ↦ rw e refl
  | inl e ↦ elim (Bool-cases x.is_failed) [
    | inl f ↦ rw (e, f) (omega arith)
    | inr f ↦ elim (Bool-cases (x.captured == pos 0 && not full_refresh)) [
      | inl c ↦ rw (e, f, c) (omega arith)
      | inr c ↦ rw (e, f, c) (omega arith)
    ]
  ]
]

settle_summary-harnesses_counted :
    (r : Prepared) (s : Summary) → harnesses_counted (settle_summary r s) ≡ harnesses_counted s
unfolding settle_summary
settle_summary-harnesses_counted r s = refl

-- What the account of a source keeps.
abbrev pub Keeps : List ℕ → List HarnessState → Summary → List HarnessState × Summary → Type 0
Keeps jobs xs s (ys, t) =
    Fits 0 ys jobs
    × (harnesses_counted t + pending ys ≡ harnesses_counted s + pending xs)
    × (t.requested ≡ s.requested)

requested-close_harness :
    (full_refresh : Bool) (x : HarnessState) (s : Summary)
    → (close_harness full_refresh x s).requested ≡ s.requested
unfolding close_harness
requested-close_harness full_refresh x s = elim (Bool-cases (x.remaining == 0)) [
  | inr e ↦ rw e refl
  | inl e ↦ elim (Bool-cases x.is_failed) [
    | inl f ↦ rw (e, f) refl
    | inr f ↦ elim (Bool-cases (x.captured == pos 0 && not full_refresh)) [
      | inl c ↦ rw (e, f, c) refl
      | inr c ↦ rw (e, f, c) refl
    ]
  ]
]

requested-settle_summary :
    (r : Prepared) (s : Summary) → (settle_summary r s).requested ≡ s.requested
unfolding settle_summary
requested-settle_summary r s = refl

settle_state_remaining :
    (r : Prepared) (x : HarnessState) → (settle_state r x).remaining ≡ x.remaining - 1
unfolding settle_state
settle_state_remaining r x = refl

unsettled : (n : ℕ) → 1 ≤ n → one_if (not (n == 0)) ≡ 1
unsettled n le = ground arith

account_at-Keeps :
    (full_refresh : Bool) (k : ℕ) (r : Prepared) (jobs : List ℕ) (xs : List HarnessState)
    (s : Summary) (o : Option HarnessState)
    → get_elem? xs k ≡ o
    → Fits 0 xs ((0 + k) ∷ jobs)
    → Keeps jobs xs s (account_at full_refresh k r xs s o)
account_at-Keeps full_refresh k r jobs xs s none at h = (beyond-Fits 0 k xs jobs at h, refl, refl)
account_at-Keeps full_refresh k r jobs xs s (some x) at h =
    let y = settle_state r x in
    let one = unsettled x.remaining (left_over 0 k xs jobs x at h) in
    let moved = pending-replace k xs x y at in
    let closed = close_harness-harnesses_counted full_refresh y (settle_summary r s) in
    let same = settle_summary-harnesses_counted r s in
    (
      replace-Fits 0 k xs jobs x y at (settle_state_remaining r x) h,
      omega arith,
      rw (requested-close_harness full_refresh y (settle_summary r s))
          (requested-settle_summary r s),
    )

account-Keeps :
    (full_refresh : Bool) (k : ℕ) (r : Prepared) (jobs : List ℕ) (xs : List HarnessState)
    (s : Summary)
    → Fits 0 xs (k ∷ jobs)
    → Keeps jobs xs s (account full_refresh k r xs s)
unfolding account
account-Keeps full_refresh k r jobs xs s h =
    account_at-Keeps full_refresh k r jobs xs s _ refl
      (subst (λ n. Fits 0 xs (n ∷ jobs)) (zero_plus k) h)
  where
    zero_plus : (k : ℕ) → k ≡ 0 + k
    zero_plus k = omega arith

pub account_all_counted :
    (full_refresh : Bool) (jobs : List ℕ) (rs : List Prepared) (xs : List HarnessState)
    (s : Summary)
    → Fits 0 xs jobs
    → (harnesses_counted (account_all full_refresh jobs rs xs s) ≡ harnesses_counted s + pending xs)
      × ((account_all full_refresh jobs rs xs s).requested ≡ s.requested)
unfolding account_all
account_all_counted full_refresh [] rs xs s h =
    let none' = none_pending 0 xs h in (omega arith, refl)
account_all_counted full_refresh (k ∷ jobs) [] xs s h = (omega arith, refl)
account_all_counted full_refresh (k ∷ jobs) (r ∷ rs) xs s h =
    let (fits, more, same) = account-Keeps full_refresh k r jobs xs s h in
    let next = account full_refresh k r xs s in
    let (rest, same') = account_all_counted full_refresh jobs rs next.0 next.1 fits in
    (omega arith, same' ∙ same)
