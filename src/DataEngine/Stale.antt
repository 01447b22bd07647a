-- ===== src/DataEngine/Stale.antt =====
-- stale.go: the components that are delayed after a stale projection. Times are milliseconds, the
-- zero time of Go is 0.
pub mod Bounds
pub mod Deadline
use mathlib.Core.List.{foldl}
use tokeninsights.Prelude.{
  ℕ, ◌+◌, ◌≤◌, ◌<◌, Bool, true, false, not, ◌&&◌, ◌||◌, List, [], ◌∷◌, ◌++◌, map, Option, none,
  some, length, filter, ltb, leb, ◌==◌, nat_eq, if◌then◌else◌,
}
use tokeninsights.DataEngine.{Work}

abbrev pub stale_retry_delay : ℕ
stale_retry_delay = 250

abbrev pub max_delayed_components : ℕ
max_delayed_components = 128

abbrev pub max_delayed_scopes : ℕ
max_delayed_scopes = 4096

pub record StaleComponent (Evidence : Type 0) : Type 0 where
  pub work : Work Evidence
  pub until : ℕ

module _ {Evidence : Type 0} where
  -- scopes += len(entry.work.Scopes)
  unfoldable pub scopes_of : List (StaleComponent Evidence) → ℕ
  scopes_of [] = 0
  scopes_of (e ∷ s) = length e.work.scopes + scopes_of s

  -- The evidence and the bytes are dropped.
  unfoldable pub delay : Work Evidence → ℕ → StaleComponent Evidence
  delay work now = record {
    work = record work { records = []; bytes = 0 };
    until = now + stale_retry_delay;
  }

  unfoldable pub add :
      Work Evidence → ℕ → List (StaleComponent Evidence) → List (StaleComponent Evidence)
  add work now s =
      if leb max_delayed_components (length s) || length work.scopes == 0
      then s
      else if ltb max_delayed_scopes (length work.scopes + scopes_of s)
      then s
      else s ++ delay work now ∷ []

  unfoldable pub prune : ℕ → List (StaleComponent Evidence) → List (StaleComponent Evidence)
  prune now s = filter (λ e. ltb now e.until) s

  abbrev pub works : List (StaleComponent Evidence) → List (Work Evidence)
  works s = map (λ e. e.work) s

  unfoldable pub excluding :
      List (Work Evidence) → List (StaleComponent Evidence) → List (Work Evidence)
  excluding claims [] = claims
  excluding claims (e ∷ s) = claims ++ works (e ∷ s)

  -- One round of the loop of `next`.
  unfoldable pub sooner : ℕ → StaleComponent Evidence → ℕ
  sooner next e = if next == 0 || ltb e.until next then e.until else next

  unfoldable pub next : List (StaleComponent Evidence) → ℕ × Bool
  next s = let deadline = foldl sooner 0 s in (deadline, not (deadline == 0))
