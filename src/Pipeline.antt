-- ===== src/Pipeline.antt =====
-- packages/core/pipeline/extract_prepare.go: the window of sources of `extractPrepared`. Readers
-- prepare the sources in the window; a single writer consumes them in their order, and lets one
-- more in for each. A run is a sequence of what the readers and the writer do, interleaved in any
-- way.
pub mod Window
pub mod Counted
pub mod Calls
pub mod Writing
pub mod Ordered
pub mod Progress
pub mod Issued
pub mod Extraction
pub mod Delivered
pub mod Summed
mod Examples
mod Summaries
use tokeninsights.Prelude.{
  ℕ, zero, suc, ◌+◌, Bool, true, false, not, ◌&&◌, ◌||◌, List, [], ◌∷◌, ◌++◌, Option, none, some,
  is_none, ltb, ◌==◌, nat_eq, length, get_elem?, map, if◌then◌else◌,
}
use tokeninsights.Prelude.Int.{ℤ, pos}
use tokeninsights.CaptureReporter.Protocol.{Op, start, finish, save, settle, stop_unfinished}

-- Where a source stands.
pub data Status : Type 0 where
  unissued queued opened prepared consumed : Status

-- rawSourceJob, with where it stands.
pub record Job : Type 0 where
  pub harness : ℕ
  pub status : Status

-- How many sources are issued, taken by a reader and consumed by the writer, and the calls of the reporter that the
-- writer has still to make for the source that it has received.
pub record Pool : Type 0 where
  pub jobs : List Job
  pub issued : ℕ
  pub taken : ℕ
  pub completed : ℕ
  pub writing : List Op

-- What came of a source: whether it could not be prepared or committed, the count of the commit,
-- and whether its quarantine could not be saved, if one is to be.
pub record Prepared : Type 0 where
  pub prepare_failed : Bool
  pub commit_failed : Bool
  pub count : ℤ
  pub save_failed : Option Bool
  pub quarantined : Bool

abbrev pub worker_default : ℕ
worker_default = 4

abbrev pub lesser : ℕ → ℕ → ℕ
lesser a b = if ltb a b then a else b

-- `rawWorkerCount`; the memory is enough for as many as the default. An option that is not
-- positive is 0.
unfoldable pub raw_worker_count : ℕ → ℕ → ℕ
raw_worker_count option count =
    let workers =
      lesser (lesser (if option == 0 then worker_default else option) count) worker_default in
    if workers == 0 then 1 else workers

unfoldable pub set_status : ℕ → Status → List Job → List Job
set_status i s [] = []
set_status zero s (j ∷ js) = record j { status = s } ∷ js
set_status (suc i) s (j ∷ js) = j ∷ set_status i s js

-- Sources of these harnesses, the first of them queued.
unfoldable pub issue_first : ℕ → List ℕ → List Job
issue_first n [] = []
issue_first zero (h ∷ hs) = record { harness = h; status = unissued } ∷ issue_first zero hs
issue_first (suc n) (h ∷ hs) = record { harness = h; status = queued } ∷ issue_first n hs

unfoldable pub open_pool : ℕ → List ℕ → Pool
open_pool workers harnesses =
    let issued = lesser workers (length harnesses) in
    record {
      jobs = issue_first issued harnesses;
      issued = issued;
      taken = 0;
      completed = 0;
      writing = [];
    }

-- A reader takes the next source of the queue or is done with one; the writer receives the next one, with what comes
-- of it, or makes its next call of the reporter, which takes the reporter's lock by itself; after the last call it lets
-- one more source in, if the context is live.
pub data Action : Type 0 where
  take : Action
  close : ℕ → Action
  receive : Prepared → Action
  call_next : Bool → Action

-- The calls of the reporter with the harness that they are about.
abbrev pub Calls : Type 0
Calls = List (ℕ × Op)

abbrev pub is_true : Option Bool → Bool
is_true none = false
is_true (some b) = b

abbrev pub is_saved : Option Bool → Bool
is_saved none = false
is_saved (some failing) = not failing

-- The calls that the writer makes for a source, in their order.
unfoldable pub writer_calls : Prepared → List Op
writer_calls r =
    (if r.prepare_failed then [] else save ∷ [])
    ++ ((if is_none r.save_failed then [] else save ∷ [])
        ++ settle (if r.prepare_failed then pos 0 else r.count)
            (r.prepare_failed || r.commit_failed || is_true r.save_failed)
            (r.quarantined || is_saved r.save_failed)
          ∷ [])

-- A reader takes the source at the place.
abbrev pub take_job : Pool → Option Job → Option (Pool × Calls)
take_job p none = none
take_job p (some j) = some (
  record p { jobs = set_status p.taken opened p.jobs; taken = p.taken + 1 },
  (j.harness, start) ∷ [],
)

abbrev pub is_opened : Status → Bool
is_opened opened = true
is_opened _ = false

abbrev pub is_prepared : Status → Bool
is_prepared prepared = true
is_prepared _ = false

abbrev pub close_job : Pool → ℕ → Option Job → Option (Pool × Calls)
close_job p i none = none
close_job p i (some j) =
    if is_opened j.status
    then some (record p { jobs = set_status i prepared p.jobs }, (j.harness, finish) ∷ [])
    else none

-- The window moves on if there is one more source and the context is live.
abbrev pub issue_next : Bool → Pool → Pool
issue_next live p =
    if ltb p.issued (length p.jobs) && live
    then record p { jobs = set_status p.issued queued p.jobs; issued = p.issued + 1 }
    else p

abbrev pub is_idle : List Op → Bool
is_idle [] = true
is_idle (_ ∷ _) = false

-- The writer receives the source.
abbrev pub receive_job : Prepared → Pool → Option Job → Option (Pool × Calls)
receive_job r p none = none
receive_job r p (some j) =
    if is_prepared j.status then some (record p { writing = writer_calls r }, []) else none

-- The writer makes its next call; the source is consumed by the last one.
abbrev pub write_job : Bool → Pool → List Op → Option Job → Option (Pool × Calls)
write_job live p ops none = none
write_job live p [] (some j) = none
write_job live p (op ∷ []) (some j) = some (
  issue_next live (record p {
    jobs = set_status p.completed consumed p.jobs;
    completed = p.completed + 1;
    writing = [];
  }),
  (j.harness, op) ∷ [],
)
write_job live p (op ∷ later ∷ ops) (some j) =
    some (record p { writing = later ∷ ops }, (j.harness, op) ∷ [])

-- What an action does; none where it would wait.
unfoldable pub step : Pool → Action → Option (Pool × Calls)
step p take = if ltb p.taken p.issued then take_job p (get_elem? p.jobs p.taken) else none
step p (close i) = close_job p i (get_elem? p.jobs i)
step p (receive r) =
    if is_idle p.writing && ltb p.completed p.issued
    then receive_job r p (get_elem? p.jobs p.completed)
    else none
step p (call_next live) = write_job live p p.writing (get_elem? p.jobs p.completed)

abbrev pub add_calls : Calls → Option (Pool × Calls) → Option (Pool × Calls)
add_calls calls none = none
add_calls calls (some (p, more)) = some (p, calls ++ more)

unfoldable pub run : Pool → List Action → Option (Pool × Calls)
run p [] = some (p, [])
run p (action ∷ actions) = elim (step p action) [
  | none ↦ none
  | some (q, calls) ↦ add_calls calls (run q actions)
]
