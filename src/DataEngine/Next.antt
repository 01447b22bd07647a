-- ===== src/DataEngine/Next.antt =====
-- worker.go: `ProcessNext`, and what a goroutine of `runConcurrent` does with one component. The
-- interpretation and the publication are parameters; `none` is an error of theirs.
use tokeninsights.Prelude.{
  Bool, true, false, not, ◌&&◌, ◌||◌, List, [], ◌∷◌, Option, none, some, ◌≡◌, refl, is_none, ◌==◌,
  string_eq, if◌then◌else◌, arith,
}
use tokeninsights.DataEngine.{Work}

-- LoadWork's results.
pub record Load (Evidence : Type 0) : Type 0 where
  pub work : Work Evidence
  pub found : Bool
  pub failed : Bool

-- Whether work was done, whether there is an error, and the calls of `RecordFailure`.
pub record Outcome (Evidence : Type 0) : Type 0 where
  pub worked : Bool
  pub failed : Bool
  pub recorded : List (Work Evidence)

-- The report of a goroutine, and the calls of `RecordFailure`.
pub record Completion (Evidence : Type 0) : Type 0 where
  pub work : Work Evidence
  pub failed : Bool
  pub published : Bool
  pub recorded : List (Work Evidence)

module _ {Evidence Projection : Type 0} (process : List Evidence → Option Projection)
    (publish : Work Evidence → Projection → Option Bool) where
  -- Whether it is published, `none` for an error of either call.
  unfoldable pub interpret : Work Evidence → Option Bool
  interpret work = elim (process work.records) [ none ↦ none | some p ↦ publish work p ]

  pub interpret-process :
      (work : Work Evidence) (p : Projection)
      → process work.records ≡ some p
      → interpret work ≡ publish work p
  unfolding interpret
  interpret-process work p h = rw (h, interpret) refl

  pub interpret-none : (work : Work Evidence) → process work.records ≡ none → interpret work ≡ none
  unfolding interpret
  interpret-none work h = rw (h, interpret) refl

  -- `worked` and whether there is a failure, up to the deferred call.
  unfoldable pub load_next : Load Evidence → Bool × Bool
  load_next l =
      if l.failed
      then (false, true)
      else if not l.found
      then (false, false)
      else if is_none (interpret l.work)
      then (false, true)
      else (true, false)

  -- `locked` is whether `TryLock` succeeds, `live` whether the context is live at the end.
  unfoldable pub process_next : Bool → Bool → Load Evidence → Outcome Evidence
  process_next locked live l =
      if not locked
      then record { worked = false; failed = false; recorded = [] }
      else let (worked, failed) = load_next l in
        record {
          worked = worked;
          failed = failed;
          recorded = if failed && live && not (l.work.root == "") then l.work ∷ [] else [];
        }

  unfoldable pub is_published : Option Bool → Bool
  is_published none = false
  is_published (some published) = published

  unfoldable pub run_worker : Bool → Work Evidence → Completion Evidence
  run_worker live work =
      let published = interpret work in
      record {
        work = work;
        failed = is_none published;
        published = is_published published;
        recorded = if is_none published && live then work ∷ [] else [];
      }

  -- `ProcessNext` ends in one of three ways: work was done, or there is an error, or neither, and
  -- then nothing was loaded or another call is at work. It records a failure once, for the loaded
  -- component, if there is an error, the context is live and the component is known.
  pub process_next_lem :
      (locked live : Bool) (l : Load Evidence)
      → (((process_next locked live l).worked && (process_next locked live l).failed) ≡ false)
        × ((process_next locked live l).worked
            ≡ (locked && not l.failed && l.found && not (is_none (interpret l.work))))
        × ((process_next locked live l).failed
            ≡ (locked && (l.failed || l.found && is_none (interpret l.work))))
        × ((process_next locked live l).recorded ≡ (
            if (process_next locked live l).failed && live && not (l.work.root == "")
            then l.work ∷ []
            else []))
  unfolding process_next load_next
  process_next_lem locked live l = ground arith

  -- For a component with a root, `ProcessNext` and a goroutine of `runConcurrent` fail alike and
  -- record the same failures.
  pub process_next-run_worker :
      (live : Bool) (work : Work Evidence)
      → (work.root == "") ≡ false
      → let alone = process_next true live (record { work = work; found = true; failed = false }) in
        (alone.failed ≡ (run_worker live work).failed)
        × (alone.worked ≡ not (run_worker live work).failed)
        × (alone.recorded ≡ (run_worker live work).recorded)
  unfolding process_next load_next run_worker
  process_next-run_worker live work rooted = ground (arith, rooted)
