-- ===== src/Pipeline/Delivered.antt =====
-- The events of a run of `extractPrepared` (packages/core/pipeline/extract_prepare.go) for all its harnesses, from the
-- discovery of the sources on, and the registry that they are given to.
use tokeninsights.Prelude.{ℕ, zero, suc, ◌<◌, Bool, List, [], ◌∷◌, ◌++◌, All, nat_eq}
use tokeninsights.CollectorProgress.Registry.{Registry}
use tokeninsights.CaptureReporter.Protocol.{Op, seek, found}
use tokeninsights.Pipeline.{Job, Pool, Calls}
use tokeninsights.Pipeline.Extraction.{sources_of, ending}

-- The calls for one harness.
abbrev pub at_place : ℕ → List Op → Calls
at_place i [] = []
at_place i (op ∷ ops) = (i, op) ∷ at_place i ops

-- Calls for `n` harnesses from a place on, one harness after the other.
abbrev pub for_each : (ℕ → List Op) → ℕ → ℕ → Calls
for_each ops i zero = []
for_each ops i (suc n) = at_place i (ops i) ++ for_each ops (suc i) n

-- The sources of a harness are discovered.
abbrev pub looking_for : List ℕ → ℕ → List Op
looking_for hs i = seek ∷ found (sources_of i hs) ∷ []

-- All calls of `extractPrepared` for `count` harnesses: the discovery, those of the readers and the writer, and the end.
abbrev pub all_calls : ℕ → List ℕ → Calls → Bool → Pool → Calls
all_calls count hs calls interrupted q =
    for_each (looking_for hs) 0 count ++ (calls ++ for_each (λ i. ending interrupted q) 0 count)

module _ (count : ℕ) where
  abbrev AreInside : Calls → Type 0
  AreInside calls = All (λ call. call.0 < count) calls

  abbrev JobsInside : List Job → Type 0
  JobsInside jobs = All (λ j. j.harness < count) jobs

  abbrev Stays : Pool → Calls → Type 0
  Stays q calls = JobsInside q.jobs × AreInside calls
