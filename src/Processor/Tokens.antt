-- ===== src/Processor/Tokens.antt =====
-- helpers.go and codex.go: sums of token counts, and the counts of one Codex usage. A nil pointer
-- is `none`.
pub mod Sums
pub mod Counts
use tokeninsights.Prelude.{
  ℕ, String, Bool, true, false, not, ◌&&◌, ◌||◌, List, [], ◌∷◌, Option, none, some, is_none, ◌==◌,
  if◌then◌else◌,
}
use tokeninsights.Prelude.Int.{ℤ, pos, ◌+ℤ◌, ◌-ℤ◌, ltb_ℤ, leb_ℤ, int_eq}
use tokeninsights.Processor.Json.{Usage, max_int64, codex_int_field, has_invalid_codex_token}

-- The loop of `TokenComponentSum`, from `total` on; none for false.
unfoldable pub sum_from : ℤ → List (Option ℤ) → Option ℤ
sum_from total [] = some total
sum_from total (none ∷ values) = sum_from total values
sum_from total (some v ∷ values) =
    let rest = sum_from (total +ℤ v) values in
    if ltb_ℤ v (pos 0) || ltb_ℤ (pos max_int64 -ℤ total) v then none else rest

unfoldable pub token_component_sum : List (Option ℤ) → Option ℤ
token_component_sum values = sum_from (pos 0) values

pub record CodexTokenCounts : Type 0 where
  pub input : Option ℤ
  pub output : Option ℤ
  pub reasoning : Option ℤ
  pub cache_read : Option ℤ
  pub total : Option ℤ

-- The counts with the codes of diagnostics, or the code of the one that refuses them.
pub data CodexTokens : Type 0 where
  refused : String → CodexTokens
  counted : CodexTokenCounts → List String → CodexTokens

unfoldable pub larger_int : Option ℤ → Option ℤ → Option ℤ
larger_int none right = right
larger_int (some l) none = some l
larger_int (some l) (some r) = if leb_ℤ r l then some l else some r

unfoldable pub is_negative : Option ℤ → Bool
is_negative none = false
is_negative (some v) = ltb_ℤ v (pos 0)

-- What `clampToken` makes of the count; `is_negative` is when it sets the flag.
unfoldable pub clamp_token : Option ℤ → Option ℤ
clamp_token none = none
clamp_token (some v) = if ltb_ℤ v (pos 0) then some (pos 0) else some v

unfoldable pub read_counts : Usage → CodexTokenCounts
read_counts usage = record {
  input = codex_int_field usage "input_tokens";
  output = codex_int_field usage "output_tokens";
  reasoning = codex_int_field usage "reasoning_output_tokens";
  cache_read =
      larger_int (codex_int_field usage "cached_input_tokens")
        (codex_int_field usage "cache_read_input_tokens");
  total = codex_int_field usage "total_tokens";
}

unfoldable pub has_none : CodexTokenCounts → Bool
has_none c =
    is_none c.input
    && is_none c.output
    && is_none c.reasoning
    && is_none c.cache_read
    && is_none c.total

unfoldable pub clamp_counts : CodexTokenCounts → CodexTokenCounts
clamp_counts c = record {
  input = clamp_token c.input;
  output = clamp_token c.output;
  reasoning = clamp_token c.reasoning;
  cache_read = clamp_token c.cache_read;
  total = clamp_token c.total;
}

unfoldable pub any_negative : CodexTokenCounts → Bool
any_negative c =
    is_negative c.input
    || is_negative c.output
    || is_negative c.reasoning
    || is_negative c.cache_read
    || is_negative c.total

-- The output without the reasoning that it includes, none where it does not include it.
unfoldable pub split_output : Option ℤ → Option ℤ → Option (Option ℤ)
split_output output none = some output
split_output none (some r) = none
split_output (some o) (some r) = if ltb_ℤ o r then none else some (some (o -ℤ r))

-- The input without what is read from the cache, before it is clamped.
unfoldable pub split_input : Option ℤ → Option ℤ → Option ℤ
split_input none cache_read = none
split_input (some i) none = some i
split_input (some i) (some r) = some (i -ℤ r)

unfoldable pub count_summed : CodexTokenCounts → Bool → CodexTokens
count_summed c clamped =
    elim (token_component_sum (c.input ∷ c.output ∷ c.reasoning ∷ c.cache_read ∷ [])) [
      | none ↦ refused "codex_jsonl_invalid_tokens"
      | some sum ↦ counted c (if clamped then "codex_jsonl_negative_tokens" ∷ [] else [])
    ]

unfoldable pub count_split : CodexTokenCounts → Bool → CodexTokens
count_split c clamped = elim (split_output c.output c.reasoning) [
  | none ↦ refused "codex_jsonl_invalid_reasoning"
  | some output ↦
      let input = split_input c.input c.cache_read in
      count_summed (record c { output = output; input = clamp_token input })
        (clamped || is_negative input)
]

abbrev pub token_names : List String
token_names =
    "input_tokens" ∷ "cached_input_tokens" ∷ "cache_read_input_tokens" ∷ "output_tokens"
    ∷ "reasoning_output_tokens" ∷ "total_tokens" ∷ []

unfoldable pub codex_tokens_from_usage : Usage → CodexTokens
codex_tokens_from_usage usage =
    let c = read_counts usage in
    if has_invalid_codex_token usage token_names
    then refused "codex_jsonl_invalid_tokens"
    else if has_none c
    then refused "codex_jsonl_missing_tokens"
    else count_split (clamp_counts c) (any_negative c)

unfoldable pub int_pointer_value : Option ℤ → ℤ
int_pointer_value none = pos 0
int_pointer_value (some v) = v

-- The sum of `lessThan`; `int64` wraps around, but not where the counts come from a usage.
unfoldable pub sum : CodexTokenCounts → ℤ
sum c =
    int_pointer_value c.input
    +ℤ int_pointer_value c.output
    +ℤ int_pointer_value c.reasoning
    +ℤ int_pointer_value c.cache_read

unfoldable pub less_than : CodexTokenCounts → CodexTokenCounts → Bool
less_than c d = ltb_ℤ (sum c) (sum d)
