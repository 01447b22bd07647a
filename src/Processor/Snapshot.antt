-- ===== src/Processor/Snapshot.antt =====
-- codex.go: the snapshots of source counters, and the identity of a message. The hash of a
-- snapshot's JSON text is a parameter.
use Prim.Native.String
use tokeninsights.Prelude.{
  ℕ, zero, suc, ◌/◌, ◌%◌, String, Bool, true, false, not, ◌&&◌, ◌||◌, List, [], ◌∷◌, Option, none,
  some, is_none, ltb, ◌==◌, nat_eq, string_eq, if◌then◌else◌,
}
use tokeninsights.Prelude.Int.{ℤ, pos, negsuc, ltb_ℤ}
use tokeninsights.Prelude.Maps.{lookup}
use tokeninsights.Processor.Json.{JsonValue, Usage, codex_int_field}
use tokeninsights.Processor.Session.{UsageSnapshot, CodexSnapshot, CodexCandidate}

abbrev pub snapshot_names : List String
snapshot_names =
    "input_tokens" ∷ "cached_input_tokens" ∷ "cache_read_input_tokens" ∷ "output_tokens"
    ∷ "reasoning_output_tokens" ∷ "total_tokens" ∷ []

-- Whether a field proves a count: a native number that is a count.
abbrev pub is_count : Option JsonValue → Option ℤ → Bool
is_count (some (JsonValue.number n)) (some v) = not (ltb_ℤ v (pos 0))
is_count _ _ = false

-- Whether no field of the names is there that proves no count.
unfoldable pub all_counts : Usage → List String → Bool
all_counts usage [] = true
all_counts usage (name ∷ names) =
    (is_none (lookup name usage) || is_count (lookup name usage) (codex_int_field usage name))
    && all_counts usage names

unfoldable pub any_present : Usage → List String → Bool
any_present usage [] = false
any_present usage (name ∷ names) = not (is_none (lookup name usage)) || any_present usage names

-- `CodexSnapshotFromUsage`
unfoldable pub snapshot_from_usage : Option Usage → Option UsageSnapshot × Bool
snapshot_from_usage none = (none, false)
snapshot_from_usage (some usage) = (
  some (record {
    input = codex_int_field usage "input_tokens";
    cached_input = codex_int_field usage "cached_input_tokens";
    cache_read = codex_int_field usage "cache_read_input_tokens";
    output = codex_int_field usage "output_tokens";
    reasoning = codex_int_field usage "reasoning_output_tokens";
    total = codex_int_field usage "total_tokens";
  }),
  all_counts usage snapshot_names && any_present usage snapshot_names,
)

digit_text : ℕ → String
digit_text n =
    if n == 0
    then "0"
    else if n == 1
    then "1"
    else if n == 2
    then "2"
    else if n == 3
    then "3"
    else if n == 4
    then "4"
    else if n == 5
    then "5"
    else if n == 6
    then "6"
    else if n == 7
    then "7"
    else if n == 8
    then "8"
    else "9"

-- The decimal digits of `n` before `rest`; `fuel` is more than the number of them.
decimal_from : ℕ → ℕ → String → String
unfolding digit_text
decimal_from zero n rest = rest
decimal_from (suc fuel) n rest =
    let here = String.◌++◌ (digit_text (n % 10)) rest in
    let longer = decimal_from fuel (n / 10) here in if ltb n 10 then here else longer

-- The number as `%d` prints it.
unfoldable pub decimal : ℤ → String
unfolding decimal_from
decimal (pos n) = decimal_from (suc n) n ""
decimal (negsuc n) = String.◌++◌ "-" (decimal_from (suc (suc n)) (suc n) "")

-- `codexMessageID`
abbrev pub codex_message_id : Option String → ℤ → ℤ → String
codex_message_id (some turn) at' line = String.◌++◌ turn (String.◌++◌ ":" (decimal at'))
codex_message_id none at' line =
    String.◌++◌ "line:" (String.◌++◌ (decimal line) (String.◌++◌ ":" (decimal at')))

module _ (snapshot_hash : CodexSnapshot → String) where
  -- `CodexMessageIdentity`
  unfoldable pub message_identity : Option String → ℤ → ℤ → CodexSnapshot → String
  message_identity turn at' line snapshot =
      let id =
        String.◌++◌ (codex_message_id turn at' line) (String.◌++◌ ":" (snapshot_hash snapshot)) in
      if not (is_none turn) && is_none snapshot.total
      then String.◌++◌ id (String.◌++◌ ":line:" (decimal line))
      else id

  abbrev pub identify : Option ℤ → CodexCandidate → CodexCandidate
  identify none c = c
  identify (some at') c = record c {
    fact = record c.fact { message_id = some (message_identity c.turn_id at' c.line c.snapshot) };
  }

  -- `setMessageID`; every candidate has a time.
  unfoldable pub set_message_id : CodexCandidate → CodexCandidate
  set_message_id c = identify c.fact.occurred_at_ms c
