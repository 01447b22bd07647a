-- ===== src/Pipeline/Ordered.antt =====
-- The order in which the window (packages/core/pipeline/extract_prepare.go) has its sources read
-- and consumed.
use tokeninsights.Prelude.{
  ℕ, zero, suc, ◌≤◌, ◌<◌, Bool, true, false, List, [], ◌∷◌, some, nat_eq, get_elem?, ◌≡◌, refl,
  arith,
}
use tokeninsights.Pipeline.{Status, queued, opened, prepared, consumed, Job, set_status}
use tokeninsights.Pipeline.Counted.{Stands}

-- A reader has the source, or is done with it.
abbrev pub is_busy : Status → Bool
is_busy opened = true
is_busy prepared = true
is_busy _ = false

-- The sources up to `completed` are consumed, and those after them up to `taken` are with the
-- readers or await the writer.
abbrev pub Behind : ℕ → ℕ → List Job → Type 0
Behind zero zero js = Unit
Behind zero (suc m) (j ∷ js) = (is_busy j.status ≡ true) × Behind zero m js
Behind (suc c) (suc m) (j ∷ js) = (j.status ≡ consumed) × Behind c m js
Behind _ _ _ = ⊥

some_injective : {x j : Job} → some x ≡ some j → x ≡ j
some_injective e = cc

pub Behind-le : (c m : ℕ) (js : List Job) → Behind c m js → c ≤ m
Behind-le zero m js h = omega arith
Behind-le (suc c) (suc m) (x ∷ js) (_, h) = let le = Behind-le c m js h in omega arith
Behind-le (suc c) zero js h = absurd h
Behind-le (suc c) (suc m) [] h = absurd h

pub take-Behind :
    (c m n : ℕ) (js : List Job)
    → Behind c m js
    → Stands m n js
    → m < n
    → Behind c (suc m) (set_status m opened js)
unfolding set_status
take-Behind zero zero (suc n) (x ∷ js) h t lt = (refl, tt)
take-Behind zero (suc m) (suc n) (x ∷ js) (b, h) t lt =
    (b, take-Behind zero m n js h t (omega arith))
take-Behind (suc c) (suc m) (suc n) (x ∷ js) (b, h) t lt =
    (b, take-Behind c m n js h t (omega arith))
take-Behind c m zero js h t lt = absurd (omega arith)
take-Behind zero zero (suc n) [] h t lt = absurd t
take-Behind zero (suc m) (suc n) [] h t lt = absurd h
take-Behind (suc c) (suc m) (suc n) [] h t lt = absurd h
take-Behind (suc c) zero (suc n) js h t lt = absurd h

consumed_apart : (x j : Job) → x.status ≡ consumed → some x ≡ some j → j.status ≡ opened → ⊥
consumed_apart x j e at o = cc

pub close-Behind :
    (c m : ℕ) (js : List Job) (i : ℕ) (j : Job)
    → Behind c m js
    → get_elem? js i ≡ some j
    → j.status ≡ opened
    → Behind c m (set_status i prepared js)
unfolding set_status
close-Behind zero zero js i j h at o = tt
close-Behind zero (suc m) (x ∷ js) zero j (b, h) at o = (refl, h)
close-Behind zero (suc m) (x ∷ js) (suc i) j (b, h) at o = (b, close-Behind zero m js i j h at o)
close-Behind (suc c) (suc m) (x ∷ js) zero j (b, h) at o = absurd (consumed_apart x j b at o)
close-Behind (suc c) (suc m) (x ∷ js) (suc i) j (b, h) at o = (b, close-Behind c m js i j h at o)
close-Behind zero (suc m) [] i j h at o = absurd h
close-Behind (suc c) (suc m) [] i j h at o = absurd h
close-Behind (suc c) zero js i j h at o = absurd h

pub consume-Behind :
    (c m : ℕ) (js : List Job) → Behind c m js → c < m → Behind (suc c) m (set_status c consumed js)
unfolding set_status
consume-Behind zero (suc m) (x ∷ js) (b, h) lt = (refl, h)
consume-Behind (suc c) (suc m) (x ∷ js) (b, h) lt = (b, consume-Behind c m js h (omega arith))
consume-Behind c zero js h lt = absurd (omega arith)
consume-Behind zero (suc m) [] h lt = absurd h
consume-Behind (suc c) (suc m) [] h lt = absurd h

pub issue-Behind :
    (c m n : ℕ) (js : List Job) → Behind c m js → m ≤ n → Behind c m (set_status n queued js)
unfolding set_status
issue-Behind zero zero n js h le = tt
issue-Behind zero (suc m) (suc n) (x ∷ js) (b, h) le = (b, issue-Behind zero m n js h (omega arith))
issue-Behind (suc c) (suc m) (suc n) (x ∷ js) (b, h) le = (b, issue-Behind c m n js h (omega arith))
issue-Behind c (suc m) zero js h le = absurd (omega arith)
issue-Behind zero (suc m) (suc n) [] h le = absurd h
issue-Behind (suc c) (suc m) (suc n) [] h le = absurd h
issue-Behind (suc c) zero n js h le = absurd h

-- The source that the writer waits for is with a reader or prepared.
pub next_busy :
    (c m : ℕ) (js : List Job)
    → Behind c m js
    → c < m
    → (j : Job) × (get_elem? js c ≡ some j) × (is_busy j.status ≡ true)
next_busy zero (suc m) (x ∷ js) (b, h) lt = (x, refl, b)
next_busy (suc c) (suc m) (x ∷ js) (b, h) lt = next_busy c m js h (omega arith)
next_busy c zero js h lt = absurd (omega arith)
next_busy zero (suc m) [] h lt = absurd h
next_busy (suc c) (suc m) [] h lt = absurd h
