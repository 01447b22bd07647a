-- ===== src/CollectorProgress/Snapshot.antt =====
-- `Snapshot` and `Details`: the attempts in the order in which they began, the id breaking ties.
pub mod Order
use tokeninsights.Prelude.{
  codes, ℕ, String, Bool, true, false, List, [], ◌∷◌, ltb, ◌==◌, nat_eq, if◌then◌else◌,
}
use tokeninsights.Prelude.Maps.{Map}
use tokeninsights.CollectorProgress.Capture.{Capture}
use tokeninsights.CollectorProgress.Registry.{Attempt, Registry, expire}

pub record Snapshot : Type 0 where
  pub instance_id : String
  pub attempts : List Attempt

pub record DetailSnapshot : Type 0 where
  pub collection : Snapshot
  pub captures : Map (Map Capture)

-- Go's `<` on strings.
unfoldable pub codes_lt : List ℕ → List ℕ → Bool
codes_lt xs [] = false
codes_lt [] (y ∷ ys) = true
codes_lt (x ∷ xs) (y ∷ ys) = if x == y then codes_lt xs ys else ltb x y

-- The order that `sort.Slice` is given.
unfoldable pub before : Attempt → Attempt → Bool
unfolding codes_lt
before left right =
    if left.started_at_ms == right.started_at_ms
    then codes_lt (codes left.attempt_id) (codes right.attempt_id)
    else ltb left.started_at_ms right.started_at_ms

unfoldable pub values : Map Attempt → List Attempt
values [] = []
values ((_, a) ∷ m) = a ∷ values m

unfoldable pub place : Attempt → List Attempt → List Attempt
place a [] = a ∷ []
place a (b ∷ bs) = if before b a then b ∷ place a bs else a ∷ b ∷ bs

-- sort.Slice
unfoldable pub sort : List Attempt → List Attempt
sort [] = []
sort (a ∷ as') = place a (sort as')

unfoldable pub snapshot_locked : Registry → Snapshot
unfolding values sort
snapshot_locked r = record { instance_id = r.instance_id; attempts = sort (values r.attempts) }

unfoldable pub snapshot : ℕ → Registry → Registry × Snapshot
snapshot now r = (expire now r, snapshot_locked (expire now r))

unfoldable pub details : ℕ → Registry → Registry × DetailSnapshot
details now r =
    let swept = expire now r in
    (swept, record { collection = snapshot_locked swept; captures = swept.captures })
