-- ===== src/Pipeline/Progress.antt =====
-- That the window (packages/core/pipeline/extract_prepare.go) comes to an end, and never waits
-- for itself.
use tokeninsights.Prelude.{
  ℕ, zero, suc, ◌+◌, ◌≤◌, ◌<◌, ◌*◌, Bool, true, false, ◌&&◌, List, [], ◌∷◌, Option, none, some,
  nat_eq, ltb, length, get_elem?, ◌≡◌, refl, subst, arith, Bool-cases, inl, inr, Option-cases,
  is_none,
}
use tokeninsights.Pipeline.{
  Status, queued, unissued, opened, prepared, consumed, Job, Pool, Prepared, Calls, Action,
  set_status, is_opened, is_prepared, is_idle, writer_calls, take_job, close_job, receive_job,
  write_job, issue_next, step, run, take, close, receive, call_next, issue_first, open_pool,
}
use tokeninsights.CaptureReporter.Protocol.{Op}
use tokeninsights.Pipeline.Writing.{IsWriting, spent}
use tokeninsights.Pipeline.Calls.{tally-le}
use tokeninsights.Pipeline.Counted.{
  tally, tally-set_status, Stands, Stands-le, taken_status, issued_status, keep-Stands,
}
use tokeninsights.Pipeline.Window.{
  IsSound, some_injective, no_result, opened_status, below, job_at, next_place, prepared-busy,
  step_lem, added,
}
use tokeninsights.Pipeline.Ordered.{
  Behind, Behind-le, take-Behind, close-Behind, consume-Behind, issue-Behind, next_busy, is_busy,
}

-- How many actions a source still takes at most: two of a reader and four of the writer.
abbrev pub rank : Status → ℕ
rank unissued = 6
rank queued = 6
rank opened = 5
rank prepared = 4
rank consumed = 0

abbrev pub job_rank : Job → ℕ
job_rank j = rank j.status

abbrev pub IsOrdered : Pool → Type 0
IsOrdered p = Behind p.completed p.taken p.jobs

-- An action keeps the order, and there is one less to come at least.
abbrev pub Advances : Pool → Pool → Type 0
Advances p q =
    IsOrdered q
    × (tally job_rank q.jobs + spent p.writing + 1 ≤ tally job_rank p.jobs + spent q.writing)

ranked :
    (js : List Job) (i : ℕ) (j : Job) (from s : Status)
    → get_elem? js i ≡ some j
    → j.status ≡ from
    → tally job_rank (set_status i s js) + rank from ≡ tally job_rank js + rank s
ranked js i j from s at is_from =
    let eq = tally-set_status job_rank s js i j at in (rw is_from at eq)

queued_apart : (s : Status) → s ≡ queued → s ≡ prepared → ⊥
queued_apart s e f = cc

spent_some : (r : Prepared) → 1 ≤ spent (writer_calls r)
unfolding writer_calls
spent_some r = elim (Bool-cases r.prepare_failed) [
  | inl e ↦ elim (Bool-cases (is_none r.save_failed)) [
    | inl n ↦ rw (e, n) (omega arith)
    | inr n ↦ rw (e, n) (omega arith)
  ]
  | inr e ↦ elim (Bool-cases (is_none r.save_failed)) [
    | inl n ↦ rw (e, n) (omega arith)
    | inr n ↦ rw (e, n) (omega arith)
  ]
]

idle_writing : (ops : List Op) (b : Bool) → is_idle ops && b ≡ true → ops ≡ []
idle_writing [] b h = refl
idle_writing (op ∷ ops) b h = cc

taken_job :
    (p : Pool) (o : Option Job) (q : Pool) (calls : Calls)
    → IsOrdered p
    → Stands p.taken p.issued p.jobs
    → p.taken < p.issued
    → get_elem? p.jobs p.taken ≡ o
    → take_job p o ≡ some (q, calls)
    → Advances p q
taken_job p none q calls ordered stands lt at e = cc
taken_job p (some j) q calls ordered stands lt at e =
    let is_queued = taken_status p.taken p.issued p.jobs j stands lt at in
    let less = ranked p.jobs p.taken j queued opened at is_queued in
    subst (λ r. Advances p r.0) (some_injective e)
      (
        subst (λ n. Behind p.completed n (set_status p.taken opened p.jobs)) (next_place p.taken)
            (take-Behind p.completed p.taken p.issued p.jobs ordered stands lt),
        omega arith,
      )

closed_job :
    (p : Pool) (i : ℕ) (o : Option Job) (q : Pool) (calls : Calls)
    → IsOrdered p
    → get_elem? p.jobs i ≡ o
    → close_job p i o ≡ some (q, calls)
    → Advances p q
closed_job p i none q calls ordered at e = cc
closed_job p i (some j) q calls ordered at e = elim (Bool-cases (is_opened j.status)) [
  | inl is_open ↦
      let is_opened' = opened_status j.status is_open in
      let less = ranked p.jobs i j opened prepared at is_opened' in
      subst (λ r. Advances p r.0) (some_injective (rw is_open at e))
        (close-Behind p.completed p.taken p.jobs i j ordered at is_opened', omega arith)
  | inr not_open ↦ absurd (no_result (rw not_open at e))
]

moved_on :
    (live : Bool) (p : Pool)
    → IsOrdered p
    → Stands p.taken p.issued p.jobs
    → IsOrdered (issue_next live p)
      × (tally job_rank (issue_next live p).jobs ≡ tally job_rank p.jobs)
      × ((issue_next live p).writing ≡ p.writing)
moved_on live p ordered stands = elim (Bool-cases (ltb p.issued (length p.jobs) && live)) [
  | inl e ↦
      let (j, at) = job_at p.jobs p.issued (below _ _ _ e) in
      let is_unissued = issued_status p.taken p.issued p.jobs j stands at in
      let same = ranked p.jobs p.issued j unissued queued at is_unissued in
      rw e (
        issue-Behind p.completed p.taken p.issued p.jobs ordered (Stands-le _ _ _ stands).0,
        omega arith,
        refl,
      )
  | inr e ↦ rw e (ordered, refl, refl)
]

-- What the writer consumes has been taken.
consumes_taken :
    (p : Pool) (j : Job)
    → IsOrdered p
    → Stands p.taken p.issued p.jobs
    → p.completed < p.issued
    → get_elem? p.jobs p.completed ≡ some j
    → j.status ≡ prepared
    → p.completed < p.taken
consumes_taken p j ordered stands lt at is_ready =
    let le = Behind-le p.completed p.taken p.jobs ordered in
    elim (Bool-cases (ltb p.completed p.taken)) [
      | inl less ↦ ground arith
      | inr ge ↦
          let eq : p.completed ≡ p.taken = ground arith in
          absurd (
            queued_apart _
              (taken_status p.taken p.issued p.jobs j stands (omega arith)
                (subst (λ n. get_elem? p.jobs n ≡ some j) eq at))
              is_ready)
    ]

received_job :
    (r : Prepared) (p : Pool) (o : Option Job) (q : Pool) (calls : Calls)
    → IsOrdered p
    → p.writing ≡ []
    → receive_job r p o ≡ some (q, calls)
    → Advances p q
unfolding writer_calls
received_job r p none q calls ordered idle e = cc
received_job r p (some j) q calls ordered idle e = elim (Bool-cases (is_prepared j.status)) [
  | inl is_ready ↦
      let short = spent_some r in
      subst (λ t. Advances p t.0) (some_injective (rw is_ready at e))
        (ordered, rw idle (omega arith))
  | inr not_ready ↦ absurd (no_result (rw not_ready at e))
]

-- The writer has made its last call for a source.
settled_job :
    (live : Bool) (p : Pool) (j : Job) (op : Op)
    → IsOrdered p
    → Stands p.taken p.issued p.jobs
    → p.writing ≡ op ∷ []
    → p.completed < p.issued
    → get_elem? p.jobs p.completed ≡ some j
    → j.status ≡ prepared
    → Advances p (
        issue_next live (record p {
          jobs = set_status p.completed consumed p.jobs;
          completed = p.completed + 1;
          writing = [];
        }))
settled_job live p j op ordered stands last lt at ready =
    let less = ranked p.jobs p.completed j prepared consumed at ready in
    let p' = record p {
      jobs = set_status p.completed consumed p.jobs;
      completed = p.completed + 1;
      writing = [];
    } in
    let (kept, same, idle) =
      moved_on live p'
        (subst (λ n. Behind n p.taken (set_status p.completed consumed p.jobs))
          (next_place p.completed)
          (consume-Behind p.completed p.taken p.jobs ordered
            (consumes_taken p j ordered stands lt at ready)))
        (keep-Stands p.taken p.issued consumed p.jobs p.completed j stands at
          (prepared-busy _ ready)) in
    (kept, rw (last, idle) (omega arith))

written_job :
    (live : Bool) (p : Pool) (ops : List Op) (o : Option Job) (q : Pool) (calls : Calls)
    → IsOrdered p
    → Stands p.taken p.issued p.jobs
    → IsWriting p.completed p.issued p.jobs p.writing
    → p.writing ≡ ops
    → get_elem? p.jobs p.completed ≡ o
    → write_job live p ops o ≡ some (q, calls)
    → Advances p q
written_job live p ops none q calls ordered stands writes is_ops at e = cc
written_job live p [] (some j) q calls ordered stands writes is_ops at e = cc
written_job live p (op ∷ []) (some x) q calls ordered stands writes is_ops at e =
    let (_, _, lt, j, at', ready) = subst (IsWriting p.completed p.issued p.jobs) is_ops writes in
    subst (λ t. Advances p t.0) (some_injective e)
      (settled_job live p j op ordered stands is_ops lt at' ready)
written_job live p (op ∷ later ∷ ops) (some x) q calls ordered stands writes is_ops at e =
    let short = (subst (IsWriting p.completed p.issued p.jobs) is_ops writes).1 in
    subst (λ t. Advances p t.0) (some_injective e) (ordered, rw is_ops (omega arith))

step-Advances :
    (p : Pool) (action : Action) (q : Pool) (calls : Calls)
    → IsOrdered p
    → Stands p.taken p.issued p.jobs
    → IsWriting p.completed p.issued p.jobs p.writing
    → step p action ≡ some (q, calls)
    → Advances p q
unfolding step
step-Advances p take q calls ordered stands writes e = elim (Bool-cases (ltb p.taken p.issued)) [
  | inl lt ↦ taken_job p _ q calls ordered stands (ground arith) refl (rw lt at e)
  | inr ge ↦ absurd (no_result (rw ge at e))
]
step-Advances p (close i) q calls ordered stands writes e = closed_job p i _ q calls ordered refl e
step-Advances p (receive r) q calls ordered stands writes e =
    elim (Bool-cases (is_idle p.writing && ltb p.completed p.issued)) [
      | inl lt ↦ received_job r p _ q calls ordered (idle_writing p.writing _ lt) (rw lt at e)
      | inr ge ↦ absurd (no_result (rw ge at e))
    ]
step-Advances p (call_next live) q calls ordered stands writes e =
    written_job live p _ _ q calls ordered stands writes refl refl e

-- A run keeps the order, and each of its actions is at least one less to come.
pub run-Advances :
    (workers : ℕ) (p : Pool) (actions : List Action) (q : Pool) (calls : Calls)
    → IsSound workers p
    → IsOrdered p
    → run p actions ≡ some (q, calls)
    → IsSound workers q
      × IsOrdered q
      × (length actions + tally job_rank q.jobs + spent p.writing
          ≤ tally job_rank p.jobs + spent q.writing)
unfolding run
run-Advances workers p [] q calls sound ordered e =
    subst
      (λ t.
        IsSound workers t.0
        × IsOrdered t.0
        × (0 + tally job_rank t.0.jobs + spent p.writing
            ≤ tally job_rank p.jobs + spent t.0.writing))
      (some_injective e) (sound, ordered, omega arith)
run-Advances workers p (action ∷ actions) q calls sound ordered e =
    elim (Option-cases (step p action)) [
      | inl stuck ↦ absurd (no_result (rw (stuck, run) at e))
      | inr ((p', first), done) ↦
          let (ordered', less) = step-Advances p action p' first ordered sound.0 sound.3 done in
          let (sound', _) = step_lem workers 0 p action p' first sound done in
          let (more, rest, all) =
            added workers 0 first (run p' actions) q calls (rw (done, run) at e) in
          let (s, o, count) = run-Advances workers p' actions q more sound' ordered' rest in
          (s, o, omega arith)
    ]

-- The source that the writer is at has at least as many actions to come as the writer has made for it.
pub spent-le :
    (p : Pool)
    → IsWriting p.completed p.issued p.jobs p.writing
    → spent p.writing ≤ tally job_rank p.jobs
spent-le p writes = by_calls p.writing writes
  where
    by_calls :
        (ops : List Op)
        → IsWriting p.completed p.issued p.jobs ops
        → spent ops ≤ tally job_rank p.jobs
    by_calls [] w = omega arith
    by_calls (op ∷ ops) (_, short, _, j, at, ready) =
        let le = tally-le job_rank p.jobs p.completed j at in
        let four : job_rank j ≡ 4 = rw ready refl in omega arith

-- A reader or the writer can go on, where this comes of the next source and the context is live or not.
pub data CanGoOn (p : Pool) (live : Bool) (r : Prepared) : Type 0 where
  takes : is_none (step p take) ≡ false → CanGoOn p live r
  closes : (i : ℕ) → is_none (step p (close i)) ≡ false → CanGoOn p live r
  receives : is_none (step p (receive r)) ≡ false → CanGoOn p live r
  writes : is_none (step p (call_next live)) ≡ false → CanGoOn p live r

-- While the writer has a source to wait for, a reader or the writer can go on.
pub can_go_on :
    (workers : ℕ) (p : Pool) (live : Bool) (r : Prepared)
    → IsSound workers p
    → IsOrdered p
    → p.completed < p.issued
    → CanGoOn p live r
unfolding step
can_go_on workers p live r sound ordered lt =
    let le = Behind-le p.completed p.taken p.jobs ordered in
    elim (Bool-cases (ltb p.taken p.issued)) [
      | inl less ↦ let (j, at) = job_at p.jobs p.taken (taken_in less) in takes (rw (less, at) refl)
      | inr ge ↦
          let (j, at, busy) = next_busy p.completed p.taken p.jobs ordered (ground arith) in
          elim (Bool-cases (is_opened j.status)) [
            | inl is_open ↦ closes p.completed (rw (at, is_open) refl)
            | inr not_open ↦ by_calls p.writing refl j at (busy-prepared j.status busy not_open)
          ]
    ]
  where
    taken_in : ltb p.taken p.issued ≡ true → p.taken < length p.jobs
    taken_in less = let (a, b) = Stands-le p.taken p.issued p.jobs sound.0 in ground arith

    busy-prepared : (s : Status) → is_busy s ≡ true → is_opened s ≡ false → is_prepared s ≡ true
    busy-prepared prepared b n = refl
    busy-prepared opened b n = cc
    busy-prepared unissued b n = cc
    busy-prepared queued b n = cc
    busy-prepared consumed b n = cc

    by_calls :
        (ops : List Op)
        → p.writing ≡ ops
        → (j : Job) → get_elem? p.jobs p.completed ≡ some j
        → is_prepared j.status ≡ true
        → CanGoOn p live r
    by_calls [] idle j at is_ready =
        let waits : ltb p.completed p.issued ≡ true = ground arith in
        receives (rw (idle, waits, at, is_ready) refl)
    by_calls (op ∷ []) is_ops j at is_ready = writes (rw (is_ops, at) refl)
    by_calls (op ∷ later ∷ ops) is_ops j at is_ready = writes (rw (is_ops, at) refl)

-- The pool as it is opened.
pub open_pool_count : (n : ℕ) (hs : List ℕ) → tally job_rank (issue_first n hs) ≡ 6 * length hs
unfolding issue_first
open_pool_count n [] = refl
open_pool_count zero (h ∷ hs) = let rest = open_pool_count zero hs in omega arith
open_pool_count (suc n) (h ∷ hs) = let rest = open_pool_count n hs in omega arith

pub open_pool-Behind : (workers : ℕ) (hs : List ℕ) → IsOrdered (open_pool workers hs)
unfolding open_pool
open_pool-Behind workers hs = tt
