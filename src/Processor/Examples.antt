-- ===== src/Processor/Examples.antt =====
-- The processor on concrete usage.
use tokeninsights.Prelude.{
  String, true, List, [], ◌∷◌, Option, none, some, ◌≡◌, refl, All, map, ◌==◌, if◌then◌else◌,
}
use tokeninsights.Prelude.Int.{ℤ, pos, negsuc, int_eq, ◌≤ℤ◌, ◌+ℤ◌, ◌-ℤ◌}
use tokeninsights.Prelude.Maps.{lookup}
use tokeninsights.Publication.Text.{is_space}
use tokeninsights.CollectorProgress.Snapshot.{codes_lt}
use tokeninsights.Publication.{Fact}
use tokeninsights.Processor.Select.{
  Candidate, Outcome, settle_group, sort_group, place, sooner, settle_sorted, selected_position,
  last_such, settle_selected, any_conflict, conflicts, same_evidence_usage, usage_of, payload_hash,
  outcomes_of, outcome_of, dispose,
}
use tokeninsights.Processor.Select.Settled.{IsSettled, settle_group-IsSettled}
use tokeninsights.Processor.Json.{
  Usage, number, text, max_int64, parse_int, trim_space, trim_left, trim_right, int_value,
  codex_int_field, has_invalid_codex_token, is_invalid_value,
}
use tokeninsights.Processor.Tokens.{
  CodexTokenCounts, counted, sum_from, token_component_sum, larger_int, clamp_token, clamp_counts,
  read_counts, split_output, split_input, count_summed, count_split, codex_tokens_from_usage,
  has_none, any_negative, is_negative,
}
use tokeninsights.Processor.Tokens.Sums.{IsNatural, plain_total, token_component_sum_lem}
use tokeninsights.Processor.Tokens.Counts.{IsSplit, codex_tokens-IsSplit}

abbrev parts : List (Option ℤ)
parts = some (pos 3) ∷ none ∷ some (pos 4) ∷ []

token_component_sum_example :
    ((total : ℤ)
      → token_component_sum parts ≡ some total
      → All IsNatural parts × (total ≡ plain_total parts) × (total ≤ℤ pos max_int64))
    × (All IsNatural parts
        → plain_total parts ≤ℤ pos max_int64
        → token_component_sum parts ≡ some (plain_total parts))
token_component_sum_example = token_component_sum_lem parts

-- The sum of 2^63 - 1 and 1 is refused.
sum_too_large : token_component_sum (some (pos max_int64) ∷ some (pos 1) ∷ []) ≡ none
unfolding token_component_sum sum_from ◌+ℤ◌ ◌-ℤ◌
sum_too_large = refl

smallest : parse_int (b'-' ∷ b'1' ∷ b'2' ∷ []) ≡ some (negsuc 11)
unfolding parse_int
smallest = refl

abbrev usage : Usage
usage =
    ("input_tokens", number "100")
    ∷ ("cached_input_tokens", number "40")
    ∷ ("output_tokens", text " 30 ")
    ∷ ("reasoning_output_tokens", number "10")
    ∷ []

abbrev counts : CodexTokenCounts
counts = record {
  input = some (pos 60);
  output = some (pos 20);
  reasoning = some (pos 10);
  cache_read = some (pos 40);
  total = none;
}

usage_counted : codex_tokens_from_usage usage ≡ counted counts []
unfolding codex_tokens_from_usage count_split count_summed split_output split_input clamp_counts
    clamp_token read_counts codex_int_field int_value parse_int trim_space trim_left trim_right
    is_space larger_int has_none any_negative is_negative has_invalid_codex_token is_invalid_value
    token_component_sum sum_from lookup ◌+ℤ◌ ◌-ℤ◌
usage_counted = refl

codex_tokens-IsSplit_example : IsSplit (clamp_counts (read_counts usage)) counts
codex_tokens-IsSplit_example = codex_tokens-IsSplit usage counts [] usage_counted

abbrev claude_fact : ℤ → ℤ → Fact
claude_fact at' output = record {
  id = "f";
  harness = "claude-code";
  session = record {
    id = "s";
    harness = "claude-code";
    native_id = "s1";
    first_occurred_at_ms = at';
    last_occurred_at_ms = at';
  };
  message = none;
  native_request_id = "r1";
  occurred_at_ms = at';
  provider = "anthropic";
  provider_source = "explicit";
  model = "opus";
  usage_scope = "message";
  quality = "exact";
  countable = true;
  input_tokens = pos 10;
  output_tokens = output;
  reasoning_tokens = pos 0;
  cache_read_tokens = pos 0;
  cache_write_tokens = pos 0;
  total_tokens = pos 10 +ℤ output;
  location = none;
  revision = none;
}

-- A later revision of a Claude message with more output, and a duplicate of it.
abbrev revisions : List Candidate
revisions =
    record {
      evidence_id = "c";
      format = "claude";
      fact = claude_fact (pos 2000) (pos 30);
      code = "";
    }
    ∷ record {
      evidence_id = "a";
      format = "claude";
      fact = claude_fact (pos 1000) (pos 20);
      code = "";
    }
    ∷ record {
      evidence_id = "b";
      format = "claude";
      fact = claude_fact (pos 2000) (pos 30);
      code = "";
    }
    ∷ []

abbrev output_text : Fact → String
output_text f = if f.output_tokens == pos 30 then "30" else "20"

dispositions :
    map {B = String × String}
      (λ (o : Outcome). (o.evidence_id, o.disposition))
      (settle_group output_text "f" revisions).outcomes
    ≡ ("a", "superseded") ∷ ("b", "duplicate") ∷ ("c", "processed") ∷ []
unfolding settle_group sort_group place sooner settle_sorted selected_position last_such
    settle_selected any_conflict conflicts same_evidence_usage usage_of payload_hash outcomes_of
    outcome_of dispose codes_lt
dispositions = refl

settle_group_example : IsSettled (sort_group revisions) (settle_group output_text "f" revisions)
settle_group_example = settle_group-IsSettled output_text "f" revisions
