-- ===== src/Pipeline/Counted.antt =====
-- How a change of one source's status changes a count over the window
-- (packages/core/pipeline/extract_prepare.go).
use tokeninsights.Prelude.{
  ℕ, zero, suc, ◌+◌, List, [], ◌∷◌, some, get_elem?, ◌≡◌, refl, subst, ◌<◌, Bool, true, false,
  length, ◌≤◌, arith,
}
use tokeninsights.Pipeline.{Status, Job, unissued, queued, set_status, issue_first}

some_injective : {x j : Job} → some x ≡ some j → x ≡ j
some_injective e = cc

abbrev pub tally : (Job → ℕ) → List Job → ℕ
tally w [] = 0
tally w (j ∷ js) = w j + tally w js

abbrev pub with_status : Status → Job → Job
with_status s j = record j { status = s }

-- The count changes by what the source counted before and counts now.
pub tally-set_status :
    (w : Job → ℕ) (s : Status) (js : List Job) (i : ℕ) (j : Job)
    → get_elem? js i ≡ some j
    → tally w (set_status i s js) + w j ≡ tally w js + w (with_status s j)
unfolding set_status
tally-set_status w s [] i j e = cc
tally-set_status w s (x ∷ js) zero j e =
    subst (λ j'. w (with_status s x) + tally w js + w j' ≡ w x + tally w js + w (with_status s j'))
      (some_injective e) (omega arith)
tally-set_status w s (x ∷ js) (suc i) j e = let rest = tally-set_status w s js i j e in omega arith

-- The sources that no reader has taken: the queued ones up to `issued`, the unissued ones after
-- them.
abbrev pub Stands : ℕ → ℕ → List Job → Type 0
Stands zero zero [] = Unit
Stands zero zero (j ∷ js) = (j.status ≡ unissued) × Stands zero zero js
Stands zero (suc n) (j ∷ js) = (j.status ≡ queued) × Stands zero n js
Stands (suc m) (suc n) (j ∷ js) = Stands m n js
Stands _ _ _ = ⊥

pub taken_status :
    (m n : ℕ) (js : List Job) (j : Job)
    → Stands m n js
    → m < n
    → get_elem? js m ≡ some j
    → j.status ≡ queued
taken_status zero (suc n) (x ∷ js) j (h, _) lt e =
    subst (λ j'. j'.status ≡ queued) (some_injective e) h
taken_status (suc m) (suc n) (x ∷ js) j h lt e = taken_status m n js j h (omega arith) e
taken_status m n [] j h lt e = cc
taken_status (suc m) zero (x ∷ js) j h lt e = absurd h
taken_status zero zero (x ∷ js) j h lt e = absurd (omega arith)

pub issued_status :
    (m n : ℕ) (js : List Job) (j : Job)
    → Stands m n js
    → get_elem? js n ≡ some j
    → j.status ≡ unissued
issued_status zero zero (x ∷ js) j (h, _) e =
    subst (λ j'. j'.status ≡ unissued) (some_injective e) h
issued_status zero (suc n) (x ∷ js) j (_, h) e = issued_status zero n js j h e
issued_status (suc m) (suc n) (x ∷ js) j h e = issued_status m n js j h e
issued_status m n [] j h e = cc
issued_status (suc m) zero (x ∷ js) j h e = absurd h

-- A reader takes the next one.
pub take-Stands :
    (m n : ℕ) (s : Status) (js : List Job)
    → Stands m n js
    → m < n
    → Stands (suc m) n (set_status m s js)
unfolding set_status
take-Stands zero (suc n) s (x ∷ js) (_, h) lt = h
take-Stands (suc m) (suc n) s (x ∷ js) h lt = take-Stands m n s js h (omega arith)
take-Stands (suc m) zero s (x ∷ js) h lt = absurd h
take-Stands zero zero s (x ∷ js) h lt = absurd (omega arith)
take-Stands zero zero s [] h lt = absurd (omega arith)
take-Stands zero (suc n) s [] h lt = absurd h
take-Stands (suc m) zero s [] h lt = absurd h
take-Stands (suc m) (suc n) s [] h lt = absurd h

abbrev pub is_waiting : Status → Bool
is_waiting unissued = true
is_waiting queued = true
is_waiting _ = false

not_waiting :
    (s : Status) (x j : Job)
    → x.status ≡ s
    → is_waiting s ≡ true
    → some x ≡ some j
    → is_waiting j.status ≡ false
    → ⊥
not_waiting s x j e w at not = cc

-- What becomes of a source that a reader has taken.
pub keep-Stands :
    (m n : ℕ) (s : Status) (js : List Job) (i : ℕ) (j : Job)
    → Stands m n js
    → get_elem? js i ≡ some j
    → is_waiting j.status ≡ false
    → Stands m n (set_status i s js)
unfolding set_status
keep-Stands m n s [] i j h e w = h
keep-Stands zero zero s (x ∷ js) zero j (h, _) e w = absurd (not_waiting _ x j h refl e w)
keep-Stands zero zero s (x ∷ js) (suc i) j (h, t) e w = (h, keep-Stands zero zero s js i j t e w)
keep-Stands zero (suc n) s (x ∷ js) zero j (h, _) e w = absurd (not_waiting _ x j h refl e w)
keep-Stands zero (suc n) s (x ∷ js) (suc i) j (h, t) e w = (h, keep-Stands zero n s js i j t e w)
keep-Stands (suc m) (suc n) s (x ∷ js) zero j h e w = h
keep-Stands (suc m) (suc n) s (x ∷ js) (suc i) j h e w = keep-Stands m n s js i j h e w
keep-Stands (suc m) zero s (x ∷ js) i j h e w = absurd h

-- One more source is queued.
pub issue-Stands :
    (m n : ℕ) (js : List Job)
    → Stands m n js
    → n < length js
    → Stands m (suc n) (set_status n queued js)
unfolding set_status
issue-Stands zero zero (x ∷ js) (_, h) lt = (refl, h)
issue-Stands zero (suc n) (x ∷ js) (e, h) lt = (e, issue-Stands zero n js h (omega arith))
issue-Stands (suc m) (suc n) (x ∷ js) h lt = issue-Stands m n js h (omega arith)
issue-Stands (suc m) zero (x ∷ js) h lt = absurd h
issue-Stands m n [] h lt = absurd (omega arith)

pub Stands-le : (m n : ℕ) (js : List Job) → Stands m n js → (m ≤ n) × (n ≤ length js)
Stands-le zero zero js h = (omega arith, omega arith)
Stands-le zero (suc n) (x ∷ js) (_, h) =
    let (_, le) = Stands-le zero n js h in (omega arith, omega arith)
Stands-le (suc m) (suc n) (x ∷ js) h =
    let (le, le') = Stands-le m n js h in (omega arith, omega arith)
Stands-le (suc m) zero js h = absurd h
Stands-le (suc m) (suc n) [] h = absurd h
Stands-le zero (suc n) [] h = absurd h

-- As the pool is opened.
pub issue_first-Stands : (n : ℕ) (hs : List ℕ) → n ≤ length hs → Stands 0 n (issue_first n hs)
unfolding issue_first
issue_first-Stands zero [] le = tt
issue_first-Stands zero (h ∷ hs) le = (refl, issue_first-Stands zero hs (omega arith))
issue_first-Stands (suc n) (h ∷ hs) le = (refl, issue_first-Stands n hs (omega arith))
issue_first-Stands (suc n) [] le = absurd (omega arith)
