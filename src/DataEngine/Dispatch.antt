-- ===== src/DataEngine/Dispatch.antt =====
-- worker.go: `runConcurrent`, one round of its loop after another. The backend's answers are given
-- by a function of the exclusions and the byte limit, the results of the goroutines by the events.
pub mod Apart
pub mod Filled
pub mod Rounds
use tokeninsights.Prelude.{
  ℕ, zero, suc, ◌+◌, ◌-◌, ◌*◌, ◌≤◌, ◌<◌, String, Bool, true, false, not, ◌&&◌, List, [], ◌∷◌, ◌++◌,
  Option, none, some, length, ltb, leb, ◌==◌, nat_eq, string_eq, if◌then◌else◌, get_elem?,
  erase_idx,
}
use tokeninsights.DataEngine.{Work}
use tokeninsights.DataEngine.Stale.{StaleComponent, add, prune, excluding}

abbrev pub worker_count : ℕ
worker_count = 2

-- 32 << 20
abbrev pub max_in_flight_bytes : ℕ
max_in_flight_bytes = 33554432

-- What a turn of the filling loop meets: the context over before the call, no work, an error with
-- the work known by then and whether the context is live, or a component.
pub data Answer (Evidence : Type 0) : Type 0 where
  cancelled : Answer Evidence
  no_work : Answer Evidence
  failing : Work Evidence → Bool → Answer Evidence
  loaded : Work Evidence → Answer Evidence

-- `running` are the goroutines that have not reported, in the order in which they were started;
-- `failures` the calls of `RecordFailure` for work that was not loaded.
pub record Dispatcher (Evidence : Type 0) : Type 0 where
  pub claims : List (Work Evidence)
  pub running : List (Work Evidence)
  pub delayed : List (StaleComponent Evidence)
  pub failures : List (Work Evidence)

module _ {Evidence : Type 0} where
  unfoldable pub used : List (Work Evidence) → ℕ
  used [] = 0
  used (claim ∷ claims) = claim.bytes + used claims

  -- The byte limit of the next call, if there is one. `int64` subtraction is not positive when it
  -- is 0 here.
  unfoldable pub admission : List (Work Evidence) → Option ℕ
  admission claims =
      if not (ltb (length claims) worker_count)
      then none
      else if ltb 0 (length claims)
      then if leb max_in_flight_bytes (used claims)
        then none
        else some (max_in_flight_bytes - used claims)
      else some 0

  unfoldable pub claim : Work Evidence → Dispatcher Evidence → Dispatcher Evidence
  claim work d = record d { claims = d.claims ++ work ∷ []; running = d.running ++ work ∷ [] }

  unfoldable pub note_failure : Work Evidence → Bool → Dispatcher Evidence → Dispatcher Evidence
  note_failure work live d =
      if live && not (work.root == "") then record d { failures = d.failures ++ work ∷ [] } else d

  -- What is done with an answer, and `rest` with a component that is claimed.
  unfoldable pub answered :
      (Dispatcher Evidence → Dispatcher Evidence)
      → Answer Evidence
      → Dispatcher Evidence
      → Dispatcher Evidence
  answered rest cancelled d = d
  answered rest no_work d = d
  answered rest (failing work live) d = note_failure work live d
  answered rest (loaded work) d = rest (claim work d)

  -- The filling loop, at most `turns` times around.
  unfoldable pub fill :
      (List (Work Evidence) → ℕ → Answer Evidence) → ℕ → Dispatcher Evidence → Dispatcher Evidence
  fill load zero d = d
  fill load (suc turns) d = elim (admission d.claims) [
    | none ↦ d
    | some limit ↦ answered (λ d'. fill load turns d') (load (excluding d.claims d.delayed) limit) d
  ]

  -- The first claim of the dataset and the root is dropped.
  unfoldable pub release : Work Evidence → List (Work Evidence) → List (Work Evidence)
  release work [] = []
  release work (claim ∷ claims) =
      let rest = release work claims in
      if claim.dataset_id == work.dataset_id && claim.root == work.root
      then claims
      else claim ∷ rest

  unfoldable pub complete :
      ℕ → Work Evidence → Bool → Bool → Dispatcher Evidence → Dispatcher Evidence
  complete now work failed published d = record d {
    claims = release work d.claims;
    delayed = if not failed && not published then add work now d.delayed else d.delayed;
  }

-- What the `select` receives: a signal to look again, or the report of the goroutine that stands at
-- the position, with its time, whether it failed and whether it published.
pub data Event : Type 0 where
  awake : Event
  report : ℕ → ℕ → Bool → Bool → Event

-- A round: the time, the answers of the backend in it, and what the `select` receives.
pub record Round (Evidence : Type 0) : Type 0 where
  pub now : ℕ
  pub load : List (Work Evidence) → ℕ → Answer Evidence
  pub event : Event

module _ {Evidence : Type 0} where
  -- Without a goroutine at the position there is no such report.
  unfoldable pub receive : Event → Dispatcher Evidence → Dispatcher Evidence
  receive awake d = d
  receive (report i now failed published) d = elim (get_elem? d.running i) [
    | none ↦ d
    | some work ↦ record (complete now work failed published d) { running = erase_idx d.running i }
  ]

  unfoldable pub turn : Round Evidence → Dispatcher Evidence → Dispatcher Evidence
  turn r d =
      receive r.event (fill r.load worker_count (record d { delayed = prune r.now d.delayed }))

  unfoldable pub run : List (Round Evidence) → Dispatcher Evidence → Dispatcher Evidence
  run [] d = d
  run (r ∷ rounds) d = run rounds (turn r d)

  abbrev pub idle : Dispatcher Evidence
  idle = record { claims = []; running = []; delayed = []; failures = [] }
