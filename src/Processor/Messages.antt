-- ===== src/Processor/Messages.antt =====
-- helpers.go and pi.go: what the parsers of the harnesses read from a message, and its token counts. A
-- diagnostic is its code.
pub mod Reasoning
use tokeninsights.Prelude.{
  codes, String, Bool, true, false, not, ◌&&◌, ◌||◌, List, [], ◌∷◌, ◌++◌, Option, none, some,
  is_none, ◌==◌, string_eq, if◌then◌else◌,
}
use tokeninsights.Prelude.Int.{ℤ, ltb_ℤ, ◌-ℤ◌}
use tokeninsights.Processor.Json.{parse_int, trim_space}
use tokeninsights.Processor.Tokens.{is_negative, clamp_token}
use tokeninsights.Processor.Native.{
  Native, null, other, number, text, object, Fields, field_of, string_field,
}

abbrev pub first_text : Option String → Option String → Option String
first_text none later = later
first_text (some s) later = some s

-- `StringField`
unfoldable pub text_field : Fields → List String → Option String
text_field record' [] = none
text_field record' (name ∷ names) =
    first_text (string_field record' name) (text_field record' names)

-- `StringValue`
unfoldable pub text_value : Fields → String → List String → String
text_value record' fallback names = elim (text_field record' names) [ none ↦ fallback | some s ↦ s ]

-- The integer that a value is; decoded numbers keep their spelling.
unfoldable pub int_of : Native → Option ℤ
int_of (number s) = parse_int (codes s)
int_of (text s) = parse_int (trim_space (codes s))
int_of _ = none

-- `IntField`: the first name that stands in the record counts.
unfoldable pub int_field : Fields → List String → Option ℤ
int_field record' [] = none
int_field record' (name ∷ names) =
    let later = int_field record' names in
    elim (field_of name record') [ none ↦ later | some v ↦ int_of v ]

abbrev pub is_invalid : Option Native → Bool
is_invalid none = false
is_invalid (some null) = false
is_invalid (some v) = is_none (int_of v)

-- `HasInvalidIntegerField`
unfoldable pub has_invalid_integer : Fields → List String → Bool
has_invalid_integer record' [] = false
has_invalid_integer record' (name ∷ names) =
    is_invalid (field_of name record') || has_invalid_integer record' names

pub record TokenCounts : Type 0 where
  pub input : Option ℤ
  pub output : Option ℤ
  pub reasoning : Option ℤ
  pub cache_read : Option ℤ
  pub cache_write : Option ℤ
  pub total : Option ℤ

unfoldable pub no_counts : TokenCounts → Bool
no_counts c =
    is_none c.input
    && (is_none c.output
        && (is_none c.reasoning
            && (is_none c.cache_read && (is_none c.cache_write && is_none c.total))))

unfoldable pub some_negative : TokenCounts → Bool
some_negative c =
    is_negative c.input
    || (is_negative c.output
        || (is_negative c.reasoning
            || (is_negative c.cache_read || (is_negative c.cache_write || is_negative c.total))))

unfoldable pub clamp_tokens : TokenCounts → TokenCounts
clamp_tokens c = record {
  input = clamp_token c.input;
  output = clamp_token c.output;
  reasoning = clamp_token c.reasoning;
  cache_read = clamp_token c.cache_read;
  cache_write = clamp_token c.cache_write;
  total = clamp_token c.total;
}

-- The output without the reasoning that it includes, or no reasoning and the code where it does not.
abbrev pub split_by : String → TokenCounts → Option ℤ → Option ℤ → TokenCounts × List String
split_by code c output none = (c, [])
split_by code c none (some r) = (record c { reasoning = none }, code ∷ [])
split_by code c (some o) (some r) =
    if ltb_ℤ o r
    then (record c { reasoning = none }, code ∷ [])
    else (record c { output = some (o -ℤ r) }, [])

unfoldable pub split_reasoning : String → TokenCounts → TokenCounts × List String
split_reasoning code c = split_by code c c.output c.reasoning

-- The components of the sum.
abbrev pub components_of : TokenCounts → List (Option ℤ)
components_of c = c.input ∷ c.output ∷ c.reasoning ∷ c.cache_read ∷ c.cache_write ∷ []
