-- ===== src/CollectorProgress/Message.antt =====
-- registry.go: `Message` and its validation. Counters are Go's `int64`, read as integers.
use tokeninsights.Prelude.{
  codes, ℕ, zero, suc, ◌^◌, ◌-◌, String, Bool, true, false, not, ◌&&◌, ◌||◌, List, [], ◌∷◌, leb,
  one_of, ◌==◌, nat_eq, string_eq, if◌then◌else◌,
}
use tokeninsights.Prelude.Int.{ℤ, pos, ltb_ℤ, int_eq}
use tokeninsights.Prelude.Maps.{Map}

pub record Message : Type 0 where
  pub operation : String
  pub attempt_id : String
  pub stage : String
  pub harnesses : Map String
  pub acknowledged_batches : ℤ
  pub acknowledged_entries : ℤ
  pub pending_known : Bool
  pub pending : ℤ
  pub error_code : String

-- 1<<53 - 1
abbrev pub max_safe_counter : ℕ
max_safe_counter = 2 ^ 53 - 1

unfoldable pub valid_harness : String → Bool
valid_harness = one_of ("codex" ∷ "opencode" ∷ "claude-code" ∷ "pi" ∷ [])

unfoldable pub terminal : String → Bool
terminal stage = stage == "accepted" || stage == "failed" || stage == "interrupted"

-- [a-f0-9]
is_hex : ℕ → Bool
is_hex c = leb b'a' c && leb c b'f' || leb b'0' c && leb c b'9'

-- The text is runs of hexadecimal digits, as long as the list says, with a dash between two runs.
matches_runs : List ℕ → List ℕ → Bool
matches_runs [] cs = false
matches_runs (zero ∷ []) [] = true
matches_runs (zero ∷ []) (c ∷ cs) = false
matches_runs (zero ∷ n ∷ ns) [] = false
matches_runs (zero ∷ n ∷ ns) (c ∷ cs) = c == b'-' && matches_runs (n ∷ ns) cs
matches_runs (suc n ∷ ns) [] = false
matches_runs (suc n ∷ ns) (c ∷ cs) = is_hex c && matches_runs (n ∷ ns) cs

-- attemptPattern.MatchString: `^(?:[a-f0-9]{32}|[a-f0-9]{8}-[a-f0-9]{4}-…)$`
unfoldable pub attempt_pattern : String → Bool
unfolding matches_runs is_hex
attempt_pattern id =
    matches_runs (32 ∷ []) (codes id) || matches_runs (8 ∷ 4 ∷ 4 ∷ 4 ∷ 12 ∷ []) (codes id)

-- count < 0 || count > maxSafeCounter
unfoldable pub out_of_range : ℤ → Bool
out_of_range count = ltb_ℤ count (pos 0) || ltb_ℤ (pos max_safe_counter) count

unfoldable pub valid_states : Map String → Bool
valid_states [] = true
valid_states ((harness, state) ∷ rest) =
    valid_harness harness
    && one_of ("waiting" ∷ "running" ∷ "complete" ∷ "failed" ∷ "skipped" ∷ []) state
    && valid_states rest

abbrev is_empty : Map String → Bool
is_empty [] = true
is_empty (_ ∷ _) = false

-- The last `switch` of `validMessage`, on the operation.
unfoldable pub valid_operation : Message → Bool
valid_operation m =
    if m.operation == "begin"
    then (m.stage == "" || m.stage == "waiting")
      && m.acknowledged_batches == pos 0
      && m.acknowledged_entries == pos 0
      && m.error_code == ""
    else if m.operation == "heartbeat"
    then m.stage == ""
      && is_empty m.harnesses
      && m.acknowledged_batches == pos 0
      && m.acknowledged_entries == pos 0
      && not m.pending_known
      && m.pending == pos 0
      && m.error_code == ""
    else if m.operation == "update"
    then (m.stage == "waiting" || m.stage == "capturing" || m.stage == "submitting")
      && m.error_code == ""
    else if m.operation == "finish"
    then terminal m.stage
      && (not (m.stage == "accepted") || m.error_code == "")
      && (m.stage == "accepted" || not (m.error_code == ""))
    else false

abbrev pub error_codes : List String
error_codes = "" ∷ "collection_failed" ∷ "submission_failed" ∷ "cancelled" ∷ "publisher_lost" ∷ []

unfoldable pub valid_message : Message → Bool
valid_message m =
    not (
      not (attempt_pattern m.attempt_id)
      || out_of_range m.acknowledged_batches
      || out_of_range m.acknowledged_entries
      || out_of_range m.pending
      || not m.pending_known && not (m.pending == pos 0))
    && valid_states m.harnesses
    && one_of error_codes m.error_code
    && valid_operation m
