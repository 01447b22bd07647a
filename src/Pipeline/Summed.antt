-- ===== src/Pipeline/Summed.antt =====
-- The summary that `extractPrepared` (packages/core/pipeline/extract_prepare.go) makes: what it
-- counts of the discovery, of each source that the writer consumes, and of what an interruption
-- leaves.
pub mod Fits
pub mod Accounts
pub mod Once
use tokeninsights.Prelude.{
  ℕ, zero, suc, ◌+◌, ◌-◌, Bool, true, false, not, ◌&&◌, ◌||◌, List, [], ◌∷◌, ◌++◌, Option, none,
  some, ltb, ◌==◌, nat_eq, length, get_elem?, if◌then◌else◌,
}
use tokeninsights.Prelude.Int.{ℤ, pos, ◌+ℤ◌, int_eq}
use tokeninsights.Pipeline.{Prepared, is_true, is_saved}

-- rawHarnessState, without the harness.
pub record HarnessState : Type 0 where
  pub remaining : ℕ
  pub captured : ℤ
  pub quarantined : ℕ
  pub is_failed : Bool

-- Summary, the errors counted.
pub record Summary : Type 0 where
  pub requested : ℕ
  pub synced : ℕ
  pub skipped : ℕ
  pub failed : ℕ
  pub raw_facts : ℤ
  pub quarantined : ℕ
  pub errors : ℕ

-- What the discovery finds for a harness.
pub data Discovery : Type 0 where
  unsupported unreadable : Discovery
  sources : ℕ → Discovery

abbrev pub state_of : ℕ → HarnessState
state_of n = record { remaining = n; captured = pos 0; quarantined = 0; is_failed = false }

abbrev pub copies : ℕ → ℕ → List ℕ
copies zero i = []
copies (suc n) i = i ∷ copies n i

abbrev pub Found : Type 0
Found = List HarnessState × List ℕ × Summary

abbrev pub with_harness : HarnessState → List ℕ → Option Found → Option Found
with_harness state jobs none = none
with_harness state jobs (some (states, more, s)) = some (state ∷ states, jobs ++ more, s)

-- The discovery of the harnesses from a place on: their states, the harness of each source, and
-- the summary. It has no result where a harness has no adapter: the code returns an error with
-- what it has counted so far.
unfoldable pub discover : ℕ → List Discovery → Summary → Option Found
discover i [] s = some ([], [], s)
discover i (unsupported ∷ ds) s = none
discover i (unreadable ∷ ds) s =
    with_harness (state_of 0) []
      (discover (i + 1) ds (record s { failed = s.failed + 1; errors = s.errors + 1 }))
discover i (sources n ∷ ds) s =
    with_harness (state_of n) (copies n i)
      (discover (i + 1) ds (if n == 0 then record s { skipped = s.skipped + 1 } else s))

abbrev pub has_failed : Prepared → Bool
has_failed r = r.prepare_failed || r.commit_failed || is_true r.save_failed

abbrev pub is_held_back : Prepared → Bool
is_held_back r = r.quarantined || is_saved r.save_failed

abbrev pub count_of : Prepared → ℤ
count_of r = if r.prepare_failed then pos 0 else r.count

abbrev pub one_if : Bool → ℕ
one_if b = if b then 1 else 0

-- The state of a harness after one of its sources.
unfoldable pub settle_state : Prepared → HarnessState → HarnessState
settle_state r state = record {
  remaining = state.remaining - 1;
  captured = state.captured +ℤ count_of r;
  quarantined = state.quarantined + one_if (is_held_back r);
  is_failed = state.is_failed || has_failed r;
}

-- The summary once a harness may have no source left.
unfoldable pub close_harness : Bool → HarnessState → Summary → Summary
close_harness full_refresh state s =
    if not (state.remaining == 0)
    then s
    else if state.is_failed
    then record s { failed = s.failed + 1 }
    else if state.captured == pos 0 && not full_refresh
    then record s { skipped = s.skipped + 1 }
    else record s { synced = s.synced + 1 }

unfoldable pub settle_summary : Prepared → Summary → Summary
settle_summary r s = record s {
  raw_facts = s.raw_facts +ℤ count_of r;
  quarantined = s.quarantined + one_if (is_held_back r);
  errors = s.errors + one_if (has_failed r);
}

abbrev pub replace : ℕ → HarnessState → List HarnessState → List HarnessState
replace k state [] = []
replace zero state (x ∷ xs) = state ∷ xs
replace (suc k) state (x ∷ xs) = x ∷ replace k state xs

abbrev pub account_at :
    Bool
    → ℕ
    → Prepared
    → List HarnessState
    → Summary
    → Option HarnessState
    → List HarnessState × Summary
account_at full_refresh k r states s none = (states, s)
account_at full_refresh k r states s (some state) =
    let state' = settle_state r state in
    (replace k state' states, close_harness full_refresh state' (settle_summary r s))

-- The writer's count of a source of the harness at the place.
unfoldable pub account :
    Bool → ℕ → Prepared → List HarnessState → Summary → List HarnessState × Summary
account full_refresh k r states s = account_at full_refresh k r states s (get_elem? states k)

-- The harnesses that have sources left.
abbrev pub pending : List HarnessState → ℕ
pending [] = 0
pending (x ∷ xs) = one_if (not (x.remaining == 0)) + pending xs

-- What the writer counts of the sources in their order. Where the results end before the sources,
-- the capture was interrupted, and the harnesses that have sources left count as failed.
unfoldable pub account_all : Bool → List ℕ → List Prepared → List HarnessState → Summary → Summary
account_all full_refresh [] rs states s = s
account_all full_refresh (k ∷ ks) [] states s = record s {
  failed = s.failed + pending states;
  errors = s.errors + 1;
}
account_all full_refresh (k ∷ ks) (r ∷ rs) states s =
    let (states', s') = account full_refresh k r states s in
    account_all full_refresh ks rs states' s'

abbrev pub summarise_found : Bool → List Prepared → Option Found → Option Summary
summarise_found full_refresh rs none = none
summarise_found full_refresh rs (some (states, jobs, s)) =
    some (account_all full_refresh jobs rs states s)

-- The summary of an extraction, from what is discovered for each harness and what comes of the
-- sources.
unfoldable pub summarise : Bool → List Discovery → List Prepared → Option Summary
summarise full_refresh ds rs = summarise_found full_refresh rs (
    discover 0 ds (record {
      requested = length ds;
      synced = 0;
      skipped = 0;
      failed = 0;
      raw_facts = pos 0;
      quarantined = 0;
      errors = 0;
    }))
