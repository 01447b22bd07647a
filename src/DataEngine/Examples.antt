-- ===== src/DataEngine/Examples.antt =====
-- The data engine on two components, one with the scope "a" and one with the scope "b".
use tokeninsights.Prelude.{
  ℕ, zero, suc, String, Bool, true, false, not, ◌&&◌, List, [], ◌∷◌, Option, none, some, ◌≡◌, inl,
  inr, refl, subst, arith, leb, is_none, ◌==◌, nat_eq, string_eq, if◌then◌else◌, eq_iff, Bool-cases,
  erase_idx, filter, map, ◌⊎◌,
}
use tokeninsights.Prelude.Int.{pos}
use tokeninsights.Prelude.Maps.{lookup}
use tokeninsights.DataEngine.{Work}
use tokeninsights.DataEngine.Stale.{
  StaleComponent, add, delay, prune, next, scopes_of, excluding, sooner,
}
use tokeninsights.DataEngine.Dispatch.{
  Answer, no_work, loaded, Round, report, awake, run, idle, turn, fill, answered, receive, complete,
  release, claim, admission, used,
}
use tokeninsights.DataEngine.Dispatch.Apart.{Disjoint}
use tokeninsights.DataEngine.Dispatch.Filled.{Answers, Fits, IsSafe}
use tokeninsights.DataEngine.Dispatch.Rounds.{run-IsSafe}
use tokeninsights.Processor.Parse.{StoredRecord}
use tokeninsights.Processor.Parse.Examples.{outside, stored}
use tokeninsights.DataEngine.Processing.{IsStopped, IsProcessed, processing, run_worker-IsProcessed}
use tokeninsights.Processor.Select.{Settlement}
use tokeninsights.Processor.Process.{is_cancelled}
use tokeninsights.DataEngine.Next.{process_next, run_worker, process_next-run_worker}

abbrev component : String → Work ℕ
component scope = record {
  dataset_id = "d";
  revision = pos 1;
  generation = pos 1;
  root = scope;
  bytes = 7;
  scopes = (scope, pos 1) ∷ [];
  records = 1 ∷ 2 ∷ [];
}

-- The first component goes to an idle dispatcher, the second beside one that lacks its scope.
load : List (Work ℕ) → ℕ → Answer ℕ
load [] zero = loaded (component "a")
load (c ∷ []) limit =
    if is_none (lookup "b" c.scopes) && leb 7 limit then loaded (component "b") else no_work
load _ _ = no_work

beside : (c : Work ℕ) → is_none (lookup "b" c.scopes) ≡ true → Disjoint (component "b") c
unfolding lookup
beside c out same scope = ground (arith, eq_iff "b" scope)

not_loaded : (work : Work ℕ) → Answer.no_work ≡ loaded work → ⊥
not_loaded work e = cc

Fits-loaded :
    (excluded : List (Work ℕ)) (limit : ℕ) (given work : Work ℕ)
    → loaded given ≡ loaded work
    → Fits excluded limit given
    → Fits excluded limit work
Fits-loaded excluded limit given work e h =
    subst (λ w. Fits excluded limit w) {x = given} {y = work} (cc e) h

load-Answers : Answers load
unfolding load lookup
load-Answers [] zero work e =
    Fits-loaded [] 0 (component "a") work e
      (record { disjoint = tt; rooted = λ out. cc; bounded = λ some'. absurd (omega arith) })
load-Answers (c ∷ []) limit work e =
    elim (Bool-cases (is_none (lookup "b" c.scopes) && leb 7 limit)) [
      | inr out ↦ absurd (not_loaded work (rw out at e))
      | inl given ↦ Fits-loaded (c ∷ []) limit (component "b") work (rw given at e) (record {
        disjoint = (beside c (ground arith), tt);
        rooted = λ out. cc;
        bounded = λ some'. ground arith;
      })
    ]
load-Answers [] (suc _) work e = absurd (not_loaded work e)
load-Answers (_ ∷ _ ∷ _) _ work e = absurd (not_loaded work e)

nothing-Answers : Answers {Evidence = ℕ} (λ excluded limit. Answer.no_work)
nothing-Answers excluded limit work e = absurd (not_loaded work e)

abbrev rounds : List (Round ℕ)
rounds =
    record { now = 1000; load = load; event = report 0 1100 false false }
    ∷ record { now = 1200; load = λ excluded limit. no_work; event = report 0 1300 false true }
    ∷ record { now = 1400; load = load; event = awake }
    ∷ []

-- The first component is stale and delayed for 250 ms, the second is published, and then both are
-- at work again.
roots_at_work : map (λ (w : Work ℕ). w.root) (run rounds idle).claims ≡ "a" ∷ "b" ∷ []
unfolding run turn fill answered receive complete release claim admission used erase_idx add delay
    prune filter scopes_of excluding load lookup
roots_at_work = refl

run-IsSafe_example : IsSafe (run rounds idle)
run-IsSafe_example = run-IsSafe rounds (load-Answers, (nothing-Answers, (load-Answers, tt)))

abbrev two_delayed : List (StaleComponent ℕ)
two_delayed =
    record { work = component "a"; until = 1500 }
    ∷ record { work = component "b"; until = 1300 }
    ∷ []

next_deadline : next (prune 1400 two_delayed) ≡ (1500, true)
unfolding next prune filter sooner
next_deadline = refl

-- An interpretation that needs a record, and a publication that is always stale or refused.
abbrev first_record : List ℕ → Option ℕ
first_record [] = none
first_record (n ∷ ns) = some n

abbrev published : Work ℕ → ℕ → Option Bool
published work n = if n == 1 then some false else none

process_next-run_worker_example :
    let alone =
      process_next first_record published true true
        (record { work = component "a"; found = true; failed = false }) in
    (alone.failed ≡ (run_worker first_record published true (component "a")).failed)
    × (alone.worked ≡ not (run_worker first_record published true (component "a")).failed)
    × (alone.recorded ≡ (run_worker first_record published true (component "a")).recorded)
process_next-run_worker_example =
    process_next-run_worker first_record published true (component "a") refl

-- The component of one record of a Pi session, and a backend that publishes.
abbrev pi_component : Work StoredRecord
pi_component = record {
  dataset_id = "d";
  revision = pos 1;
  generation = pos 1;
  root = "pi:session:s1";
  bytes = 10;
  scopes = [];
  records = stored ∷ [];
}

abbrev lives : ℕ → Bool
lives turn = false

abbrev publishes : Work StoredRecord → Settlement → Option Bool
publishes work projection = some true

run_worker-IsProcessed_example :
    IsStopped outside lives publishes pi_component
      (run_worker (processing outside lives) publishes true pi_component)
    ⊎ ((is_cancelled lives 0 pi_component.records ≡ false)
        × IsProcessed outside lives publishes true pi_component)
unfolding is_cancelled
run_worker-IsProcessed_example =
    run_worker-IsProcessed outside lives publishes true pi_component refl
