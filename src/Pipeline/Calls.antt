-- ===== src/Pipeline/Calls.antt =====
-- The calls of the reporter that a run of the window (packages/core/pipeline/extract_prepare.go)
-- makes for one harness.
use tokeninsights.Prelude.{
  ℕ, zero, suc, ◌+◌, ◌≤◌, Bool, true, false, ◌&&◌, List, [], ◌∷◌, ◌++◌, some, ◌==◌, nat_eq,
  get_elem?, ◌≡◌, refl, sym, subst, arith, if◌then◌else◌, Bool-cases, inl, inr,
}
use tokeninsights.Prelude.Int.{ℤ}
use tokeninsights.CaptureReporter.Protocol.{
  Op, start, finish, save, settle, Ledger, working, next, AreAllowed,
}
use tokeninsights.CaptureReporter.Delivery.Together.{calls_for}
use tokeninsights.Pipeline.{
  Status, queued, unissued, opened, prepared, consumed, Job, Calls, set_status, is_opened,
  is_prepared,
}
use tokeninsights.Pipeline.Counted.{tally, tally-set_status, is_waiting}

abbrev pub bit : Bool → ℕ
bit b = if b then 1 else 0

-- A source of the harness in such a status counts for one.
unfoldable pub weight : (Status → Bool) → ℕ → Job → ℕ
weight t h j = bit (j.harness == h && t j.status)

abbrev pub many : (Status → Bool) → ℕ → List Job → ℕ
many t h jobs = tally (weight t h) jobs

-- Where the sources of a harness stand in the window.
abbrev pub ledger : ℕ → List Job → Ledger
ledger h jobs = working (many is_waiting h jobs) (many is_opened h jobs) (many is_prepared h jobs)

abbrev pub follow : Ledger → List Op → Ledger
follow l [] = l
follow l (op ∷ ops) = follow (next l op) ops

-- The calls are allowed, and lead from one ledger to another.
abbrev pub Lead : Ledger → List Op → Ledger → Type 0
Lead l ops l' = AreAllowed l ops × (follow l ops ≡ l')

pub tally-le :
    (w : Job → ℕ) (js : List Job) (i : ℕ) (j : Job) → get_elem? js i ≡ some j → w j ≤ tally w js
tally-le w [] i j e = cc
tally-le w (x ∷ js) zero j e =
    subst (λ j'. w j' ≤ w x + tally w js) (some_injective e) (omega arith)
  where
    some_injective : {x j : Job} → some x ≡ some j → x ≡ j
    some_injective e = cc
tally-le w (x ∷ js) (suc i) j e = let le = tally-le w js i j e in omega arith

module _ (h i : ℕ) (js : List Job) (j : Job) (from s : Status) where
  changed :
      (t : Status → Bool)
      → get_elem? js i ≡ some j
      → j.status ≡ from
      → (j.harness == h) ≡ true
      → (many t h (set_status i s js) + bit (t from) ≡ many t h js + bit (t s))
        × (bit (t from) ≤ many t h js)
  unfolding weight
  changed t at is_from mine =
      let eq = tally-set_status (weight t h) s js i j at in
      let le = tally-le (weight t h) js i j at in
      (rw (mine, is_from) at eq, rw (mine, is_from) at le)

  unchanged :
      (t : Status → Bool)
      → get_elem? js i ≡ some j
      → (j.harness == h) ≡ false
      → many t h (set_status i s js) ≡ many t h js
  unfolding weight
  unchanged t at other =
      let eq = tally-set_status (weight t h) s js i j at in
      let eq' = (rw other at eq) in omega arith

  other-ledger :
      get_elem? js i ≡ some j
      → (j.harness == h) ≡ false
      → ledger h js ≡ ledger h (set_status i s js)
  other-ledger at other =
      rw
        (
          unchanged is_waiting at other,
          unchanged is_opened at other,
          unchanged is_prepared at other,
        )
        refl

working_eq : {a b c a' b' c' : ℕ} → a ≡ a' → b ≡ b' → c ≡ c' → working a b c ≡ working a' b' c'
working_eq e f g = cc

calls_for_mine : (h k : ℕ) (op : Op) → (k == h) ≡ true → calls_for h ((k, op) ∷ []) ≡ op ∷ []
calls_for_mine h k op e = rw e refl

calls_for_other : (h k : ℕ) (op : Op) → (k == h) ≡ false → calls_for h ((k, op) ∷ []) ≡ []
calls_for_other h k op e = rw e refl

-- A source that a reader takes.
pub take-Lead :
    (h i : ℕ) (js : List Job) (j : Job)
    → get_elem? js i ≡ some j
    → j.status ≡ queued
    → Lead (ledger h js) (calls_for h ((j.harness, start) ∷ [])) (ledger h (set_status i opened js))
take-Lead h i js j at is_queued = elim (Bool-cases (j.harness == h)) [
  | inl mine ↦
      let (w, some_waiting) = changed h i js j queued opened is_waiting at is_queued mine in
      let (o, _) = changed h i js j queued opened is_opened at is_queued mine in
      let (r, _) = changed h i js j queued opened is_prepared at is_queued mine in
      rw (calls_for_mine h j.harness start mine)
        ((omega arith, tt), working_eq (omega arith) (omega arith) (omega arith))
  | inr other ↦
      rw (calls_for_other h j.harness start other)
        (tt, other-ledger h i js j queued opened at other)
]

-- A source that a reader is done with.
pub close-Lead :
    (h i : ℕ) (js : List Job) (j : Job)
    → get_elem? js i ≡ some j
    → j.status ≡ opened
    → Lead
        (ledger h js)
        (calls_for h ((j.harness, finish) ∷ []))
        (ledger h (set_status i prepared js))
close-Lead h i js j at is_open = elim (Bool-cases (j.harness == h)) [
  | inl mine ↦
      let (w, _) = changed h i js j opened prepared is_waiting at is_open mine in
      let (o, some_open) = changed h i js j opened prepared is_opened at is_open mine in
      let (r, _) = changed h i js j opened prepared is_prepared at is_open mine in
      rw (calls_for_mine h j.harness finish mine)
        ((omega arith, tt), working_eq (omega arith) (omega arith) (omega arith))
  | inr other ↦
      rw (calls_for_other h j.harness finish other)
        (tt, other-ledger h i js j opened prepared at other)
]

-- The writer is about to save a source.
pub save-Lead :
    (h i : ℕ) (js : List Job) (j : Job)
    → get_elem? js i ≡ some j
    → j.status ≡ prepared
    → Lead (ledger h js) (calls_for h ((j.harness, save) ∷ [])) (ledger h js)
save-Lead h i js j at is_ready = elim (Bool-cases (j.harness == h)) [
  | inl mine ↦
      let (_, some_ready) = changed h i js j prepared consumed is_prepared at is_ready mine in
      rw (calls_for_mine h j.harness save mine) ((omega arith, tt), refl)
  | inr other ↦ rw (calls_for_other h j.harness save other) (tt, refl)
]

-- The writer has finalized a source.
pub settle-Lead :
    (h i : ℕ) (js : List Job) (j : Job) (count : ℤ) (failing is_quarantined : Bool)
    → get_elem? js i ≡ some j
    → j.status ≡ prepared
    → Lead
        (ledger h js)
        (calls_for h ((j.harness, settle count failing is_quarantined) ∷ []))
        (ledger h (set_status i consumed js))
settle-Lead h i js j count failing is_quarantined at is_ready = elim (Bool-cases (j.harness == h)) [
  | inl mine ↦
      let (w, _) = changed h i js j prepared consumed is_waiting at is_ready mine in
      let (o, _) = changed h i js j prepared consumed is_opened at is_ready mine in
      let (p, some_ready) = changed h i js j prepared consumed is_prepared at is_ready mine in
      rw (calls_for_mine h j.harness (settle count failing is_quarantined) mine)
        ((omega arith, tt), working_eq (omega arith) (omega arith) (omega arith))
  | inr other ↦
      rw (calls_for_other h j.harness (settle count failing is_quarantined) other)
        (tt, other-ledger h i js j prepared consumed at other)
]

-- A source that is queued is not begun, as before.
pub issue-ledger :
    (h i : ℕ) (js : List Job) (j : Job)
    → get_elem? js i ≡ some j
    → j.status ≡ unissued
    → ledger h js ≡ ledger h (set_status i queued js)
issue-ledger h i js j at is_unissued = elim (Bool-cases (j.harness == h)) [
  | inl mine ↦
      let (w, _) = changed h i js j unissued queued is_waiting at is_unissued mine in
      let (o, _) = changed h i js j unissued queued is_opened at is_unissued mine in
      let (r, _) = changed h i js j unissued queued is_prepared at is_unissued mine in
      working_eq (omega arith) (omega arith) (omega arith)
  | inr other ↦ other-ledger h i js j unissued queued at other
]

pub append-Lead :
    (l m n : Ledger) (xs ys : List Op) → Lead l xs m → Lead m ys n → Lead l (xs ++ ys) n
append-Lead l m n [] ys (_, e) h = subst (λ k. Lead k ys n) (sym e) h
append-Lead l m n (x ∷ xs) ys ((a, allowed), e) h =
    let (bs, f) = append-Lead (next l x) m n xs ys (allowed, e) h in ((a, bs), f)

pub calls_for_append :
    (h : ℕ) (xs ys : Calls) → calls_for h (xs ++ ys) ≡ calls_for h xs ++ calls_for h ys
calls_for_append h [] ys = refl
calls_for_append h ((k, op) ∷ xs) ys = elim (Bool-cases (k == h)) [
  | inl e ↦ rw (e, calls_for_append h xs ys) refl
  | inr e ↦ rw (e, calls_for_append h xs ys) refl
]
