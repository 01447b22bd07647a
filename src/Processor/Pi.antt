-- ===== src/Processor/Pi.antt =====
-- pi.go: the usage in a record of a Pi session. The hash of a text and the reading of a timestamp are
-- parameters; the keys that only captured facts had are left out.
pub mod Counts
use Prim.Native.String
use tokeninsights.Prelude.{
  String, Bool, true, false, not, ◌&&◌, ◌||◌, List, [], ◌∷◌, ◌++◌, Option, none, some, is_none,
  ◌==◌, string_eq, if◌then◌else◌,
}
use tokeninsights.Prelude.Int.{ℤ, pos, ◌-ℤ◌, ltb_ℤ, leb_ℤ, int_eq}
use tokeninsights.Prelude.Results.{Result, err, ok, guard, ◌>>=◌, ◌>>◌}
use tokeninsights.Processor.Tokens.{token_component_sum, int_pointer_value}
use tokeninsights.Processor.Native.{
  Native, Fields, nested, fields_of, string_field, string_value, trim_text,
}
use tokeninsights.Processor.Session.{RawTokenFact}
use tokeninsights.Processor.Messages.{
  TokenCounts, int_field, has_invalid_integer, no_counts, some_negative, clamp_tokens,
  split_reasoning,
}

abbrev pub pi_token_names : List String
pi_token_names = "input" ∷ "output" ∷ "reasoning" ∷ "cacheRead" ∷ "cacheWrite" ∷ "totalTokens" ∷ []

unfoldable pub pi_counts : Fields → TokenCounts
pi_counts usage = record {
  input = int_field usage ("input" ∷ []);
  output = int_field usage ("output" ∷ []);
  reasoning = int_field usage ("reasoning" ∷ []);
  cache_read = int_field usage ("cacheRead" ∷ []);
  cache_write = int_field usage ("cacheWrite" ∷ []);
  total = int_field usage ("totalTokens" ∷ []);
}

abbrev pub inclusive_of : Option ℤ → ℤ → Option ℤ → Option ℤ → Option ℤ
inclusive_of (some i) t (some cache) (some inclusive) =
    if ltb_ℤ (pos 0) cache && (leb_ℤ cache i && t == inclusive) then some cache else none
inclusive_of _ _ _ _ = none

-- The cached tokens, where the input of an old record includes them and the total says so.
unfoldable pub inclusive_cache : TokenCounts → ℤ → Option ℤ
inclusive_cache c t =
    inclusive_of c.input t (token_component_sum (c.cache_read ∷ c.cache_write ∷ []))
      (token_component_sum (c.input ∷ c.output ∷ []))

abbrev pub settle_by : TokenCounts → Option ℤ → TokenCounts × List String
settle_by c (some cache) = (
  record c { input = some (int_pointer_value c.input -ℤ cache) },
  "pi_jsonl_inclusive_input_tokens" ∷ [],
)
settle_by c none = (record c { total = none }, "pi_jsonl_inconsistent_total" ∷ [])

-- What becomes of a total beside the sum of the components.
abbrev pub settle_total : TokenCounts → Option ℤ → ℤ → TokenCounts × List String
settle_total c none sum = (c, [])
settle_total c (some t) sum = if t == sum then (c, []) else settle_by c (inclusive_cache c t)

abbrev pub pi_summed :
    TokenCounts → List String → Option ℤ → Result (List String) (TokenCounts × List String)
pi_summed c ds none = err ("pi_jsonl_invalid_tokens" ∷ [])
pi_summed c ds (some sum) =
    let (settled, more) = settle_total c c.total sum in
    let (counts, last) = split_reasoning "pi_jsonl_invalid_reasoning" settled in
    ok (counts, ds ++ (more ++ last))

-- `piTokensFromUsage`
unfoldable pub pi_tokens : Fields → Result (List String) (TokenCounts × List String)
pi_tokens usage = do
  guard (not (has_invalid_integer usage pi_token_names)) ("pi_jsonl_invalid_tokens" ∷ [])
  guard (not (no_counts (pi_counts usage))) ("pi_jsonl_missing_tokens" ∷ [])
  let c = clamp_tokens (pi_counts usage)
  pi_summed c (if some_negative (pi_counts usage) then "pi_jsonl_negative_tokens" ∷ [] else [])
      (token_component_sum (c.input ∷ c.output ∷ c.cache_read ∷ c.cache_write ∷ []))

abbrev pub given {ℓ} : {A : Type ℓ} → List String → Option A → Result (List String) A
given ds none = err ds
given ds (some a) = ok a

module _ (hash : String → String) (parse_timestamp : String → Option ℤ) where
  abbrev pub time_of : Option ℤ → Option String → Option ℤ
  time_of (some at') s = some at'
  time_of none (some s) = parse_timestamp s
  time_of none none = none

  -- `factFromRecord`; `session` is the id of the session.
  unfoldable pub pi_fact :
      String → String → Fields → Result (List String) (RawTokenFact × List String)
  pi_fact kind session record' = do
    guard (string_value record' "" "type" == "message") []
    let message = nested (some record') "message"
    guard (string_value (fields_of message) "" "role" == "assistant") []
    usage ← given [] (nested message "usage")
    counted ← pi_tokens usage
    at' ← given ("pi_jsonl_missing_time" ∷ []) (
        time_of (int_field (fields_of message) ("timestamp" ∷ []))
          (string_field record' "timestamp"))
    guard (not (trim_text session == "")) ("pi_jsonl_missing_session" ∷ [])
    let id = string_field record' "id"
    let c = counted.0
    ok (
      record {
        harness = "pi";
        source_id = hash (String.◌++◌ "pi-session:" session);
        source_kind = kind;
        occurred_at_ms = some at';
        session_id = some session;
        message_id = id;
        provider = string_field (fields_of message) "provider";
        model = string_field (fields_of message) "model";
        usage_scope = "message";
        quality = "exact";
        input_tokens = c.input;
        output_tokens = c.output;
        reasoning_tokens = c.reasoning;
        cache_read_tokens = c.cache_read;
        cache_write_tokens = c.cache_write;
        total_tokens = c.total;
      },
      counted.1 ++ (if is_none id then "pi_jsonl_missing_message_id" ∷ [] else []),
    )
