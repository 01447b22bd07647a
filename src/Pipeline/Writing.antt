-- ===== src/Pipeline/Writing.antt =====
-- The writer of the window (packages/core/pipeline/extract_prepare.go) between two of its calls.
use tokeninsights.Prelude.{
  ℕ, zero, suc, ◌-◌, ◌≤◌, ◌<◌, Bool, false, List, [], ◌∷◌, some, is_none, length, get_elem?, ◌≡◌,
  refl, arith, Bool-cases, inl, inr,
}
use tokeninsights.Prelude.Int.{ℤ}
use tokeninsights.CaptureReporter.Protocol.{
  Op, seek, found, start, finish, save, settle, stop, stop_unfinished,
}
use tokeninsights.Pipeline.{Status, Job, Prepared, prepared, is_prepared, set_status, writer_calls}

-- Calls that say that a source is saved, and at last that it is finalized.
abbrev pub Ends : List Op → Type 0
Ends [] = ⊥
Ends (save ∷ ops) = Ends ops
Ends (settle count failing is_quarantined ∷ []) = Unit
Ends (settle count failing is_quarantined ∷ _ ∷ _) = ⊥
Ends (seek ∷ ops) = ⊥
Ends (found n ∷ ops) = ⊥
Ends (start ∷ ops) = ⊥
Ends (finish ∷ ops) = ⊥
Ends (stop b ∷ ops) = ⊥
Ends (stop_unfinished b ∷ ops) = ⊥

-- While the writer has calls to make, the source that they are about is the next one to consume, and it is prepared.
abbrev pub IsWriting : ℕ → ℕ → List Job → List Op → Type 0
IsWriting completed issued jobs [] = Unit
IsWriting completed issued jobs (op ∷ ops) =
    Ends (op ∷ ops)
    × (length ops ≤ 2)
    × (completed < issued)
    × (j : Job) × (get_elem? jobs completed ≡ some j)
    × (j.status ≡ prepared)

pub last_settles :
    (op : Op)
    → Ends (op ∷ [])
    → (count : ℤ) × (failing : Bool) × (is_quarantined : Bool) × (op
        ≡ settle count failing is_quarantined)
last_settles (settle count failing is_quarantined) h = (count, failing, is_quarantined, refl)
last_settles save h = absurd h
last_settles seek h = absurd h
last_settles (found n) h = absurd h
last_settles start h = absurd h
last_settles finish h = absurd h
last_settles (stop b) h = absurd h
last_settles (stop_unfinished b) h = absurd h

pub others_save :
    (op later : Op) (ops : List Op) → Ends (op ∷ later ∷ ops) → (op ≡ save) × Ends (later ∷ ops)
others_save save later ops h = (refl, h)
others_save (settle count failing is_quarantined) later ops h = absurd h
others_save seek later ops h = absurd h
others_save (found n) later ops h = absurd h
others_save start later ops h = absurd h
others_save finish later ops h = absurd h
others_save (stop b) later ops h = absurd h
others_save (stop_unfinished b) later ops h = absurd h

-- What the writer receives.
pub writer_calls-IsWriting :
    (completed issued : ℕ) (jobs : List Job) (j : Job) (r : Prepared)
    → completed < issued
    → get_elem? jobs completed ≡ some j
    → j.status ≡ prepared
    → IsWriting completed issued jobs (writer_calls r)
unfolding writer_calls
writer_calls-IsWriting completed issued jobs j r lt at ready = elim (Bool-cases r.prepare_failed) [
  | inl e ↦ elim (Bool-cases (is_none r.save_failed)) [
    | inl n ↦ rw (e, n) (tt, omega arith, lt, j, at, ready)
    | inr n ↦ rw (e, n) (tt, omega arith, lt, j, at, ready)
  ]
  | inr e ↦ elim (Bool-cases (is_none r.save_failed)) [
    | inl n ↦ rw (e, n) (tt, omega arith, lt, j, at, ready)
    | inr n ↦ rw (e, n) (tt, omega arith, lt, j, at, ready)
  ]
]

prepared_only :
    (x j : Job) → some x ≡ some j → is_prepared x.status ≡ false → j.status ≡ prepared → ⊥
prepared_only x j e not ready = cc

-- A prepared source stands where another one changes.
kept_at :
    (js : List Job) (i k : ℕ) (s : Status) (x j : Job)
    → get_elem? js i ≡ some x
    → is_prepared x.status ≡ false
    → get_elem? js k ≡ some j
    → j.status ≡ prepared
    → get_elem? (set_status i s js) k ≡ some j
unfolding set_status
kept_at [] i k s x j at not at' ready = at'
kept_at (y ∷ js) zero zero s x j at not at' ready = absurd (both at at')
  where
    both : some y ≡ some x → some y ≡ some j → ⊥
    both e f = cc
kept_at (y ∷ js) zero (suc k) s x j at not at' ready = at'
kept_at (y ∷ js) (suc i) zero s x j at not at' ready = at'
kept_at (y ∷ js) (suc i) (suc k) s x j at not at' ready = kept_at js i k s x j at not at' ready

pub keep-IsWriting :
    (completed issued : ℕ) (jobs : List Job) (ops : List Op) (i : ℕ) (s : Status) (x : Job)
    → get_elem? jobs i ≡ some x
    → is_prepared x.status ≡ false
    → IsWriting completed issued jobs ops
    → IsWriting completed issued (set_status i s jobs) ops
keep-IsWriting completed issued jobs [] i s x at not h = tt
keep-IsWriting completed issued jobs (op ∷ ops) i s x at not (ends, short, lt, j, at', ready) =
    (ends, short, lt, j, kept_at jobs i completed s x j at not at' ready, ready)

-- How many actions the writer has made for the source that it is at: it receives it, and makes three calls at most.
abbrev pub spent : List Op → ℕ
spent [] = 0
spent (op ∷ ops) = 3 - length ops
