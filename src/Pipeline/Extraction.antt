-- ===== src/Pipeline/Extraction.antt =====
-- What holds of every run of `extractPrepared` (packages/core/pipeline/extract_prepare.go), from
-- the pool as it is opened.
use tokeninsights.Prelude.{
  ℕ, zero, suc, ◌+◌, ◌*◌, ◌≤◌, Bool, true, false, ◌&&◌, List, [], ◌∷◌, ◌++◌, some, ◌==◌, nat_eq,
  ltb, length, ◌≡◌, ◌⊎◌, refl, sym, subst, arith, if◌then◌else◌, Bool-cases, inl, inr,
}
use tokeninsights.CollectorProgress.Message.{max_safe_counter}
use tokeninsights.CaptureReporter.Protocol.{
  Op, seek, found, stop_unfinished, Ledger, next, working, fresh, AreAllowed,
}
use tokeninsights.Pipeline.{
  Status, Job, Pool, Prepared, Calls, Action, is_opened, is_prepared, run, issue_first, open_pool,
  raw_worker_count, worker_default, lesser, unissued, queued, opened, prepared, consumed,
}
use tokeninsights.Pipeline.Counted.{tally, is_waiting, Stands-le}
use tokeninsights.Pipeline.Calls.{bit, weight, many, ledger, Lead}
use tokeninsights.CaptureReporter.Delivery.Together.{calls_for}
use tokeninsights.Pipeline.Window.{held, is_held, run-Keeps, open_pool-IsSound, lesser_le}
use tokeninsights.Pipeline.Progress.{
  run-Advances, CanGoOn, can_go_on, spent-le, open_pool_count, open_pool-Behind, job_rank,
}
use tokeninsights.Pipeline.Issued.{all_live, IsFull, run-IsFull, length-issue_first}

-- The sources of a harness.
abbrev pub sources_of : ℕ → List ℕ → ℕ
sources_of h [] = 0
sources_of h (k ∷ ks) = bit (k == h) + sources_of h ks

-- The end of an interrupted capture, once the writer has consumed what was issued.
unfoldable pub ending : Bool → Pool → List Op
ending interrupted p =
    if p.completed == p.issued && interrupted then stop_unfinished true ∷ [] else []

if_more : (b : Bool) (k n : ℕ) → bit b * k + (if b then n else 0) ≡ (if b then k + n else 0)
if_more true k n = omega arith
if_more false k n = omega arith

weight_if : (b c : Bool) → bit (c && b) ≡ bit b * bit c
weight_if true true = refl
weight_if true false = refl
weight_if false true = refl
weight_if false false = refl

-- As the pool is opened, no source is begun.
start_many :
    (t : Status → Bool) (b : Bool) (h n : ℕ) (hs : List ℕ)
    → t unissued ≡ b
    → t queued ≡ b
    → many t h (issue_first n hs) ≡ (if b then sources_of h hs else 0)
unfolding weight issue_first
start_many t b h n [] u v = elim (Bool-cases b) [ inl e ↦ rw e refl | inr e ↦ rw e refl ]
start_many t b h zero (k ∷ hs) u v =
    rw (u, start_many t b h zero hs u v, weight_if b (k == h))
      (if_more b (bit (k == h)) (sources_of h hs))
start_many t b h (suc n) (k ∷ hs) u v =
    rw (v, start_many t b h n hs u v, weight_if b (k == h))
      (if_more b (bit (k == h)) (sources_of h hs))

sources_of_le : (h : ℕ) (hs : List ℕ) → sources_of h hs ≤ length hs
sources_of_le h [] = omega arith
sources_of_le h (k ∷ hs) =
    let rest = sources_of_le h hs in
    elim (Bool-cases (k == h)) [ inl e ↦ rw e (omega arith) | inr e ↦ rw e (omega arith) ]

opened-held : (h : ℕ) (j : Job) → weight is_opened h j ≤ held j
unfolding weight
opened-held h j = elim (Bool-cases (j.harness == h)) [
  | inl e ↦ rw e (status j.status)
  | inr e ↦ rw e (omega arith)
]
  where
    status : (s : Status) → bit (is_opened s) ≤ bit (is_held s)
    status unissued = omega arith
    status queued = omega arith
    status opened = omega arith
    status prepared = omega arith
    status consumed = omega arith

opened_le : (h : ℕ) (js : List Job) → many is_opened h js ≤ tally held js
opened_le h [] = omega arith
opened_le h (j ∷ js) = let le = opened-held h j in let rest = opened_le h js in omega arith

raw_worker_count_le : (option count : ℕ) → raw_worker_count option count ≤ worker_default
unfolding raw_worker_count
raw_worker_count_le option count =
    let given = lesser (if option == 0 then worker_default else option) count in
    let (_, le) = lesser_le given worker_default in
    elim (Bool-cases (lesser given worker_default == 0)) [
      | inl e ↦ rw e (omega arith)
      | inr e ↦ rw e le
    ]

opened_ledger :
    (workers h : ℕ) (hs : List ℕ)
    → ledger h (open_pool workers hs).jobs ≡ working (sources_of h hs) 0 0
unfolding open_pool
opened_ledger workers h hs =
    let n = lesser workers (length hs) in
    rw
      (
        start_many is_waiting true h n hs refl refl,
        start_many is_opened false h n hs refl refl,
        start_many is_prepared false h n hs refl refl,
      )
      refl

open_count :
    (workers : ℕ) (hs : List ℕ) → tally job_rank (open_pool workers hs).jobs ≡ 6 * length hs
unfolding open_pool
open_count workers hs = open_pool_count (lesser workers (length hs)) hs

ending-AreAllowed :
    (h : ℕ) (interrupted : Bool) (q : Pool)
    → tally held q.jobs + q.completed ≡ q.issued
    → AreAllowed (ledger h q.jobs) (ending interrupted q)
unfolding ending
ending-AreAllowed h interrupted q counted =
    elim (Bool-cases (q.completed == q.issued && interrupted)) [
      | inl e ↦ rw e (none_open e, tt)
      | inr e ↦ rw e tt
    ]
  where
    none_open : q.completed == q.issued && interrupted ≡ true → many is_opened h q.jobs ≡ 0
    none_open e = let le = opened_le h q.jobs in ground arith

AreAllowed-append :
    (l m : Ledger) (xs ys : List Op) → Lead l xs m → AreAllowed m ys → AreAllowed l (xs ++ ys)
AreAllowed-append l m [] ys (_, e) allowed = subst (λ k. AreAllowed k ys) (sym e) allowed
AreAllowed-append l m (x ∷ xs) ys ((a, more), e) allowed =
    (a, AreAllowed-append (next l x) m xs ys (more, e) allowed)

module _ (option h : ℕ) (hs : List ℕ) where
  -- However the readers and the writer, between any two of its calls, interleave, the reporter is called for a harness
  -- whose sources are discovered only as it may be: a source is started before its reading ends, and read before it is saved and
  -- finalized, no more often than there are sources, and an interrupted capture stops what is
  -- unfinished when no reader is at work. This holds if there are no more sources than a counter
  -- can say.
  pub run-AreAllowed :
      (interrupted : Bool) (actions : List Action) (q : Pool) (calls : Calls)
      → run (open_pool (raw_worker_count option (length hs)) hs) actions ≡ some (q, calls)
      → length hs ≤ max_safe_counter
      → AreAllowed fresh
          (seek ∷ found (sources_of h hs) ∷ calls_for h calls ++ ending interrupted q)
  run-AreAllowed interrupted actions q calls done fits =
      let workers = raw_worker_count option (length hs) in
      let start = open_pool workers hs in
      let ((stands, counted, bound, _), lead) =
        run-Keeps workers h start actions q calls (open_pool-IsSound workers hs) done in
      let le = sources_of_le h hs in
      (
        tt,
        (
          omega arith,
          AreAllowed-append (working (sources_of h hs) 0 0) (ledger h q.jobs) (calls_for h calls)
              (ending interrupted q)
              (subst (λ l. Lead l (calls_for h calls) (ledger h q.jobs))
                (opened_ledger workers h hs) lead)
              (ending-AreAllowed h interrupted q counted),
        ),
      )

-- Of the sources that are queued, being read or prepared there are never more than the workers,
-- of which there are at most four, so that the prepared files are bounded.
pub run-IsBounded :
    (option : ℕ) (hs : List ℕ) (actions : List Action) (q : Pool) (calls : Calls)
    → run (open_pool (raw_worker_count option (length hs)) hs) actions ≡ some (q, calls)
    → (tally held q.jobs ≤ raw_worker_count option (length hs))
      × (raw_worker_count option (length hs) ≤ 4)
run-IsBounded option hs actions q calls done =
    let workers = raw_worker_count option (length hs) in
    let ((stands, counted, bound, _), _) =
      run-Keeps workers 0 (open_pool workers hs) actions q calls (open_pool-IsSound workers hs)
        done in
    (omega arith, raw_worker_count_le option (length hs))

at_least_one : (option count : ℕ) → 1 ≤ raw_worker_count option count
unfolding raw_worker_count
at_least_one option count =
    let given = lesser (if option == 0 then worker_default else option) count in
    elim (Bool-cases (lesser given worker_default == 0)) [
      | inl e ↦ rw e (omega arith)
      | inr e ↦ rw e (ground arith)
    ]

opened-IsFull :
    (workers : ℕ) (hs : List ℕ)
    → IsFull (length hs) (lesser workers (length hs)) (open_pool workers hs)
unfolding open_pool
opened-IsFull workers hs = (length-issue_first (lesser workers (length hs)) hs, inr (omega arith))

-- Where nothing is in the window though the context was live, there is nothing left.
none_left :
    (workers count issued completed : ℕ)
    → 1 ≤ workers
    → (issued ≡ count) ⊎ (issued ≡ completed + lesser workers count)
    → issued ≤ count
    → completed ≡ issued
    → completed ≡ count
none_left workers count issued completed positive full le idle =
    elim (Bool-cases (ltb workers count)) [
      | inl few ↦
          let full' : (issued ≡ count) ⊎ (issued ≡ completed + workers) = rw few at full in
          ground (arith, full', positive)
      | inr many' ↦
          let full' : (issued ≡ count) ⊎ (issued ≡ completed + count) = rw many' at full in
          ground (arith, full', le)
    ]

-- Where a run can stop: a reader or the writer can go on, where this comes of the next source and the context is
-- live or not, unless the writer has consumed what was issued, and then it has consumed every source, or the context
-- was done when the writer was to let one more in.
abbrev pub GoesOnOrEnds : ℕ → List Action → Pool → Bool → Prepared → Type 0
GoesOnOrEnds count actions q live r =
    CanGoOn q live r
    ⊎ ((q.completed ≡ q.issued) × ((q.completed ≡ count) ⊎ (all_live actions ≡ false)))

-- A run takes at most six actions for each source. Where it stops, a reader or the writer can go on, whatever comes of
-- the next source and whether or not the context is live, or the writer has consumed what was issued; and then it has
-- consumed every source, or the context was done when it had made its last call for one of them.
pub run_ends_lem :
    (option : ℕ) (hs : List ℕ) (actions : List Action) (q : Pool) (calls : Calls) (live : Bool)
    (r : Prepared)
    → run (open_pool (raw_worker_count option (length hs)) hs) actions ≡ some (q, calls)
    → (length actions ≤ 6 * length hs) × GoesOnOrEnds (length hs) actions q live r
run_ends_lem option hs actions q calls live r done =
    let workers = raw_worker_count option (length hs) in
    let start = open_pool workers hs in
    let opened-IsSound = open_pool-IsSound workers hs in
    let (sound, ordered, count) =
      run-Advances workers start actions q calls opened-IsSound (open_pool-Behind workers hs)
        done in
    let all = open_count workers hs in
    let few = spent-le q sound.3 in
    (
      omega arith,
      elim (Bool-cases (ltb q.completed q.issued)) [
        | inl lt ↦ inl (can_go_on workers q live r sound ordered (ground arith))
        | inr ge ↦
            let idle : q.completed ≡ q.issued = let eq = sound.1 in ground arith in
            inr (
              idle,
              elim (Bool-cases (all_live actions)) [
                | inr ended ↦ inr ended
                | inl lives ↦
                    let (every, full) =
                      run-IsFull (length hs) (lesser workers (length hs)) workers start actions q
                        calls opened-IsSound (opened-IsFull workers hs) lives done in
                    let (_, le) = Stands-le q.taken q.issued q.jobs sound.0 in
                    inl (
                      none_left workers (length hs) q.issued q.completed
                        (at_least_one option (length hs)) full (omega arith) idle)
              ],
            )
      ],
    )
