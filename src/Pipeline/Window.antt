-- ===== src/Pipeline/Window.antt =====
-- What each action of the window (packages/core/pipeline/extract_prepare.go) keeps.
use tokeninsights.Prelude.{
  ℕ, zero, suc, ◌+◌, ◌≤◌, ◌<◌, Bool, true, false, ◌&&◌, List, [], ◌∷◌, ◌++◌, Option, none, some,
  nat_eq, ltb, length, get_elem?, ◌≡◌, refl, sym, subst, arith, Bool-cases, inl, inr, Option-cases,
  ap, ◌∙◌,
}
use tokeninsights.Pipeline.{
  Status, queued, unissued, opened, prepared, consumed, Job, Pool, Prepared, Calls, Action,
  set_status, is_opened, is_prepared, is_idle, take_job, close_job, receive_job, write_job,
  issue_next, step, run, add_calls, issue_first, open_pool, lesser, take, close, receive, call_next,
}
use tokeninsights.Pipeline.Counted.{
  tally, tally-set_status, is_waiting, Stands, take-Stands, keep-Stands, issue-Stands,
  issue_first-Stands, taken_status, issued_status,
}
use tokeninsights.CaptureReporter.Protocol.{Op, settle}
use tokeninsights.CaptureReporter.Delivery.Together.{calls_for}
use tokeninsights.Pipeline.Writing.{
  Ends, IsWriting, last_settles, others_save, writer_calls-IsWriting, keep-IsWriting,
}
use tokeninsights.Pipeline.Calls.{
  bit, ledger, Lead, take-Lead, close-Lead, save-Lead, settle-Lead, issue-ledger, append-Lead,
  calls_for_append,
}

-- A source is held by the window from when it is queued to when it is consumed.
abbrev pub is_held : Status → Bool
is_held queued = true
is_held opened = true
is_held prepared = true
is_held _ = false

abbrev pub held : Job → ℕ
held j = bit (is_held j.status)

-- The sources up to `issued` are given out and no others, in their order, and those that are not
-- yet consumed, as many as are held, are at most as many as the workers; the writer is at the next one to consume.
abbrev pub IsSound : ℕ → Pool → Type 0
IsSound workers p =
    Stands p.taken p.issued p.jobs
    × (tally held p.jobs + p.completed ≡ p.issued)
    × (p.issued ≤ p.completed + workers)
    × IsWriting p.completed p.issued p.jobs p.writing

held_changed :
    (js : List Job) (i : ℕ) (j : Job) (from s : Status)
    → get_elem? js i ≡ some j
    → j.status ≡ from
    → tally held (set_status i s js) + bit (is_held from) ≡ tally held js + bit (is_held s)
held_changed js i j from s at is_from =
    let eq = tally-set_status held s js i j at in (rw is_from at eq)

pub opened_status : (s : Status) → is_opened s ≡ true → s ≡ opened
opened_status opened e = refl
opened_status unissued e = cc
opened_status queued e = cc
opened_status prepared e = cc
opened_status consumed e = cc

pub prepared_status : (s : Status) → is_prepared s ≡ true → s ≡ prepared
prepared_status prepared e = refl
prepared_status unissued e = cc
prepared_status queued e = cc
prepared_status opened e = cc
prepared_status consumed e = cc

opened-busy : (s : Status) → s ≡ opened → is_waiting s ≡ false
opened-busy s e = rw e refl

pub prepared-busy : (s : Status) → s ≡ prepared → is_waiting s ≡ false
prepared-busy s e = rw e refl

pub next_place : (n : ℕ) → suc n ≡ n + 1
next_place n = omega arith

pub some_injective : {x y : Pool × Calls} → some x ≡ some y → x ≡ y
some_injective e = cc

pub no_result : {x : Pool × Calls} → none ≡ some x → ⊥
no_result e = cc

pub job_at : (js : List Job) (i : ℕ) → i < length js → (j : Job) × (get_elem? js i ≡ some j)
job_at [] i lt = absurd (omega arith)
job_at (j ∷ js) zero lt = (j, refl)
job_at (j ∷ js) (suc i) lt = job_at js i (omega arith)

same_job : {x y : Job} → some x ≡ some y → x ≡ y
same_job e = cc

below_if : (b : Bool) (m n : ℕ) → b && ltb m n ≡ true → m < n
below_if b m n e = ground arith

pub below : (m n : ℕ) (b : Bool) → ltb m n && b ≡ true → m < n
below m n b e = ground arith

module _ (workers h : ℕ) where
  -- What an action and its calls keep.
  abbrev pub Keeps : Pool → Pool → Calls → Type 0
  Keeps p q calls = IsSound workers q × Lead (ledger h p.jobs) (calls_for h calls) (ledger h q.jobs)

  taken_job :
      (p : Pool) (o : Option Job) (q : Pool) (calls : Calls)
      → IsSound workers p
      → p.taken < p.issued
      → get_elem? p.jobs p.taken ≡ o
      → take_job p o ≡ some (q, calls)
      → Keeps p q calls
  taken_job p none q calls sound lt at e = cc
  taken_job p (some j) q calls (stands, held_eq, bound, writes) lt at e =
      let is_queued = taken_status p.taken p.issued p.jobs j stands lt at in
      let same = held_changed p.jobs p.taken j queued opened at is_queued in
      subst (λ r. Keeps p r.0 r.1) (some_injective e)
        (
          (
            subst (λ n. Stands n p.issued (set_status p.taken opened p.jobs)) (next_place p.taken)
                (take-Stands p.taken p.issued opened p.jobs stands lt),
            omega arith,
            bound,
            keep-IsWriting p.completed p.issued p.jobs p.writing p.taken opened j at
                (rw is_queued refl) writes,
          ),
          take-Lead h p.taken p.jobs j at is_queued,
        )

  closed_job :
      (p : Pool) (i : ℕ) (o : Option Job) (q : Pool) (calls : Calls)
      → IsSound workers p
      → get_elem? p.jobs i ≡ o
      → close_job p i o ≡ some (q, calls)
      → Keeps p q calls
  closed_job p i none q calls sound at e = cc
  closed_job p i (some j) q calls (stands, held_eq, bound, writes) at e =
      elim (Bool-cases (is_opened j.status)) [
        | inl is_open ↦
            let is_opened' = opened_status j.status is_open in
            let same = held_changed p.jobs i j opened prepared at is_opened' in
            subst (λ r. Keeps p r.0 r.1) (some_injective (rw is_open at e))
              (
                (
                  keep-Stands p.taken p.issued prepared p.jobs i j stands at
                      (opened-busy _ is_opened'),
                  omega arith,
                  bound,
                  keep-IsWriting p.completed p.issued p.jobs p.writing i prepared j at
                      (rw is_opened' refl) writes,
                ),
                close-Lead h i p.jobs j at is_opened',
              )
        | inr not_open ↦ absurd (no_result (rw not_open at e))
      ]

  -- The window moves on where the writer has consumed one more than it held against.
  moved_on :
      (live : Bool) (p : Pool)
      → Stands p.taken p.issued p.jobs
      → tally held p.jobs + p.completed ≡ p.issued
      → p.issued + 1 ≤ p.completed + workers
      → p.writing ≡ []
      → IsSound workers (issue_next live p) × (ledger h p.jobs ≡ ledger h (issue_next live p).jobs)
  moved_on live p stands held_eq bound idle =
      elim (Bool-cases (ltb p.issued (length p.jobs) && live)) [
        | inl e ↦
            let (j, at) = job_at p.jobs p.issued (below _ _ _ e) in
            let is_unissued = issued_status p.taken p.issued p.jobs j stands at in
            let one = held_changed p.jobs p.issued j unissued queued at is_unissued in
            rw e (
              (
                subst (λ n. Stands p.taken n (set_status p.issued queued p.jobs))
                    (next_place p.issued)
                    (issue-Stands p.taken p.issued p.jobs stands (below _ _ _ e)),
                omega arith,
                omega arith,
                rw idle tt,
              ),
              issue-ledger h p.issued p.jobs j at is_unissued,
            )
        | inr e ↦ rw e ((stands, held_eq, omega arith, rw idle tt), refl)
      ]

  received_job :
      (r : Prepared) (p : Pool) (o : Option Job) (q : Pool) (calls : Calls)
      → IsSound workers p
      → p.completed < p.issued
      → get_elem? p.jobs p.completed ≡ o
      → receive_job r p o ≡ some (q, calls)
      → Keeps p q calls
  received_job r p none q calls sound lt at e = cc
  received_job r p (some j) q calls (stands, held_eq, bound, _) lt at e =
      elim (Bool-cases (is_prepared j.status)) [
        | inl is_ready ↦
            subst (λ t. Keeps p t.0 t.1) (some_injective (rw is_ready at e))
              (
                (
                  stands,
                  held_eq,
                  bound,
                  writer_calls-IsWriting p.completed p.issued p.jobs j r lt at
                      (prepared_status j.status is_ready),
                ),
                (tt, refl),
              )
        | inr not_ready ↦ absurd (no_result (rw not_ready at e))
      ]

  -- The writer finalizes a source.
  settled_job :
      (live : Bool) (p : Pool) (j : Job) (op : Op)
      → IsSound workers p
      → Ends (op ∷ [])
      → get_elem? p.jobs p.completed ≡ some j
      → j.status ≡ prepared
      → Keeps p
          (issue_next live (record p {
            jobs = set_status p.completed consumed p.jobs;
            completed = p.completed + 1;
            writing = [];
          }))
          ((j.harness, op) ∷ [])
  settled_job live p j op (stands, held_eq, bound, _) ends at ready =
      let (count, failing, is_quarantined, is_settle) = last_settles op ends in
      let one = held_changed p.jobs p.completed j prepared consumed at ready in
      let p' = record p {
        jobs = set_status p.completed consumed p.jobs;
        completed = p.completed + 1;
        writing = [];
      } in
      let (sound, same) =
        moved_on live p'
          (keep-Stands p.taken p.issued consumed p.jobs p.completed j stands at
            (prepared-busy _ ready))
          (omega arith) (omega arith) refl in
      (
        sound,
        subst
            (λ o.
              Lead (ledger h p.jobs) (calls_for h ((j.harness, o) ∷ []))
                (ledger h (issue_next live p').jobs))
            (sym is_settle)
            (subst
              (λ l.
                Lead (ledger h p.jobs)
                  (calls_for h ((j.harness, settle count failing is_quarantined) ∷ [])) l)
              same (settle-Lead h p.completed p.jobs j count failing is_quarantined at ready)),
      )

  written_job :
      (live : Bool) (p : Pool) (ops : List Op) (o : Option Job) (q : Pool) (calls : Calls)
      → IsSound workers p
      → p.writing ≡ ops
      → get_elem? p.jobs p.completed ≡ o
      → write_job live p ops o ≡ some (q, calls)
      → Keeps p q calls
  written_job live p ops none q calls sound is_ops at e = cc
  written_job live p [] (some j) q calls sound is_ops at e = cc
  written_job live p (op ∷ []) (some x) q calls sound is_ops at e =
      let (ends, _, lt, j, at', ready) =
        subst (IsWriting p.completed p.issued p.jobs) is_ops sound.3 in
      let same : x ≡ j = same_job (sym at ∙ at') in
      subst (λ t. Keeps p t.0 t.1) (some_injective e)
        (settled_job live p x op sound ends at (ap (λ y. y.status) same ∙ ready))
  written_job live p (op ∷ later ∷ ops) (some x) q calls sound is_ops at e =
      let (ends, short, lt, j, at', ready) =
        subst (IsWriting p.completed p.issued p.jobs) is_ops sound.3 in
      let same : x ≡ j = same_job (sym at ∙ at') in
      let (is_save, ends') = others_save op later ops ends in
      subst (λ t. Keeps p t.0 t.1) (some_injective e)
        (
          (sound.0, sound.1, sound.2, (ends', omega arith, lt, j, at', ready)),
          subst (λ o. Lead (ledger h p.jobs) (calls_for h ((x.harness, o) ∷ [])) (ledger h p.jobs))
              (sym is_save) (save-Lead h p.completed p.jobs x at (ap (λ y. y.status) same ∙ ready)),
        )

  pub step_lem :
      (p : Pool) (action : Action) (q : Pool) (calls : Calls)
      → IsSound workers p
      → step p action ≡ some (q, calls)
      → Keeps p q calls
  unfolding step
  step_lem p take q calls sound e = elim (Bool-cases (ltb p.taken p.issued)) [
    | inl lt ↦ taken_job p _ q calls sound (ground arith) refl (rw lt at e)
    | inr ge ↦ absurd (no_result (rw ge at e))
  ]
  step_lem p (close i) q calls sound e = closed_job p i _ q calls sound refl e
  step_lem p (receive r) q calls sound e =
      elim (Bool-cases (is_idle p.writing && ltb p.completed p.issued)) [
        | inl lt ↦ received_job r p _ q calls sound (below_if _ _ _ lt) refl (rw lt at e)
        | inr ge ↦ absurd (no_result (rw ge at e))
      ]
  step_lem p (call_next live) q calls sound e = written_job live p _ _ q calls sound refl refl e

  Keeps-then :
      (p q s : Pool) (calls more : Calls)
      → Keeps p q calls
      → Keeps q s more
      → Keeps p s (calls ++ more)
  Keeps-then p q s calls more (_, lead) (sound, lead') = (
    sound,
    rw (calls_for_append h calls more) (
        append-Lead (ledger h p.jobs) (ledger h q.jobs) (ledger h s.jobs) (calls_for h calls)
          (calls_for h more) lead lead'),
  )

  pub added :
      (calls : Calls) (o : Option (Pool × Calls)) (s : Pool) (all : Calls)
      → add_calls calls o ≡ some (s, all)
      → (more : Calls) × (o ≡ some (s, more)) × (all ≡ calls ++ more)
  added calls none s all e = cc
  added calls (some (t, more)) s all e = (more, cc, cc)

  pub run-Keeps :
      (p : Pool) (actions : List Action) (q : Pool) (calls : Calls)
      → IsSound workers p
      → run p actions ≡ some (q, calls)
      → Keeps p q calls
  unfolding run
  run-Keeps p [] q calls sound e =
      subst (λ t. Keeps p t.0 t.1) (some_injective e) (sound, (tt, refl))
  run-Keeps p (action ∷ actions) q calls sound e = elim (Option-cases (step p action)) [
    | inl stuck ↦ absurd (no_result (rw (stuck, run) at e))
    | inr ((p', first), done) ↦
        let kept = step_lem p action p' first sound done in
        let (more, rest, all) = added first (run p' actions) q calls (rw (done, run) at e) in
        subst (Keeps p q) (sym all)
          (Keeps-then p p' q first more kept (run-Keeps p' actions q more kept.0 rest))
  ]

pub lesser_le : (a b : ℕ) → (lesser a b ≤ a) × (lesser a b ≤ b)
lesser_le a b = elim (Bool-cases (ltb a b)) [
  | inl e ↦ rw e (omega arith, ground arith)
  | inr e ↦ rw e (ground arith, omega arith)
]

issue_first-held : (n : ℕ) (hs : List ℕ) → n ≤ length hs → tally held (issue_first n hs) ≡ n
unfolding issue_first
issue_first-held zero [] le = refl
issue_first-held zero (h ∷ hs) le = let rest = issue_first-held zero hs (omega arith) in omega arith
issue_first-held (suc n) (h ∷ hs) le = let rest = issue_first-held n hs (omega arith) in omega arith
issue_first-held (suc n) [] le = absurd (omega arith)

pub open_pool-IsSound : (workers : ℕ) (hs : List ℕ) → IsSound workers (open_pool workers hs)
unfolding open_pool
open_pool-IsSound workers hs =
    let n = lesser workers (length hs) in
    let (le, le') = lesser_le workers (length hs) in
    let all = issue_first-held n hs le' in
    (issue_first-Stands n hs le', omega arith, omega arith, tt)
