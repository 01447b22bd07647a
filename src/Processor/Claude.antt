-- ===== src/Processor/Claude.antt =====
-- claude.go: the usage in a record of a Claude Code session, and what is settled before it is published.
-- The hash of a text and the reading of a timestamp are parameters; of the identity metadata there is the
-- id of the request, and the key that only captured facts had is left out.
pub mod Counts
use Prim.Native.String
use tokeninsights.Prelude.{
  String, Bool, true, false, not, ◌&&◌, ◌||◌, List, [], ◌∷◌, ◌++◌, Option, none, some, is_none,
  ◌==◌, string_eq, if◌then◌else◌,
}
use tokeninsights.Prelude.Int.{ℤ, int_eq}
use tokeninsights.Prelude.Results.{Result, err, ok, guard, ◌>>=◌, ◌>>◌}
use tokeninsights.Publication.Validation.{valid_timestamp_ms}
use tokeninsights.Processor.Tokens.{token_component_sum}
use tokeninsights.Processor.Native.{
  Native, Fields, nested, fields_of, string_field, string_value, trim_text,
}
use tokeninsights.Processor.Session.{RawTokenFact, or_else}
use tokeninsights.Processor.Messages.{
  TokenCounts, int_field, has_invalid_integer, no_counts, some_negative, clamp_tokens,
  split_reasoning, text_field, text_value, components_of,
}
use tokeninsights.Processor.Pi.{given}

abbrev pub claude_token_names : List String
claude_token_names =
    "input_tokens" ∷ "output_tokens" ∷ "cache_read_input_tokens" ∷ "cache_creation_input_tokens"
    ∷ "total_tokens" ∷ []

abbrev pub details_names : List String
details_names = "thinking_tokens" ∷ "reasoning_tokens" ∷ []

unfoldable pub claude_counts : Fields → TokenCounts
claude_counts usage = record {
  input = int_field usage ("input_tokens" ∷ []);
  output = int_field usage ("output_tokens" ∷ []);
  reasoning = int_field (fields_of (nested (some usage) "output_tokens_details")) details_names;
  cache_read = int_field usage ("cache_read_input_tokens" ∷ []);
  cache_write = int_field usage ("cache_creation_input_tokens" ∷ []);
  total = int_field usage ("total_tokens" ∷ []);
}

-- `claudeCodeTokensFromUsage`
unfoldable pub claude_tokens : Fields → Result (List String) (TokenCounts × List String)
claude_tokens usage = do
  guard
      (not (
        has_invalid_integer usage claude_token_names
        || has_invalid_integer (fields_of (nested (some usage) "output_tokens_details"))
            details_names))
      ("claude_code_jsonl_invalid_tokens" ∷ [])
  guard (not (no_counts (claude_counts usage))) ("claude_code_jsonl_missing_tokens" ∷ [])
  ok (
    clamp_tokens (claude_counts usage),
    if some_negative (claude_counts usage) then "claude_code_jsonl_negative_tokens" ∷ [] else [],
  )

-- The total, if it is the sum of the components.
abbrev pub settle_claude : TokenCounts → List String → Option ℤ → ℤ → TokenCounts × List String
settle_claude c ds none sum = (c, ds)
settle_claude c ds (some t) sum =
    if t == sum
    then (c, ds)
    else (record c { total = none }, ds ++ "claude_code_jsonl_inconsistent_total" ∷ [])

abbrev pub claude_summed :
    TokenCounts → List String → Option ℤ → Result (List String) (TokenCounts × List String)
claude_summed c ds none = err ("claude_code_jsonl_invalid_tokens" ∷ [])
claude_summed c ds (some sum) = ok (settle_claude c ds c.total sum)

-- What `finalizeClaudeCodeFact` makes of the counts.
unfoldable pub finalize_claude : TokenCounts → Result (List String) (TokenCounts × List String)
finalize_claude c =
    let (told, ds) = split_reasoning "claude_code_jsonl_invalid_reasoning" c in
    claude_summed told ds (token_component_sum (components_of told))

abbrev pub counts_of : RawTokenFact → TokenCounts
counts_of fact = record {
  input = fact.input_tokens;
  output = fact.output_tokens;
  reasoning = fact.reasoning_tokens;
  cache_read = fact.cache_read_tokens;
  cache_write = fact.cache_write_tokens;
  total = fact.total_tokens;
}

abbrev pub set_counts : TokenCounts → RawTokenFact → RawTokenFact
set_counts c fact = record fact {
  input_tokens = c.input;
  output_tokens = c.output;
  reasoning_tokens = c.reasoning;
  cache_read_tokens = c.cache_read;
  cache_write_tokens = c.cache_write;
  total_tokens = c.total;
}

-- `finalizeClaudeCodeFact`
unfoldable pub finalize_claude_fact :
    RawTokenFact → Result (List String) (RawTokenFact × List String)
finalize_claude_fact fact = do
  settled ← finalize_claude (counts_of fact)
  ok (set_counts settled.0 fact, settled.1)

-- The id of the request in the identity metadata.
unfoldable pub claude_request_id : Fields → String
claude_request_id record' = text_value record' "" ("requestId" ∷ "request_id" ∷ [])

module _ (hash : String → String) (parse_timestamp : String → Option ℤ) where
  abbrev pub read_time : Option String → Option ℤ
  read_time none = none
  read_time (some s) = parse_timestamp s

  -- `factFromRecord`
  unfoldable pub claude_fact :
      String → String → Fields → Result (List String) (RawTokenFact × List String)
  claude_fact kind fallback record' = do
    guard (string_value record' "" "type" == "assistant") []
    let message = nested (some record') "message"
    guard (string_value (fields_of message) "" "role" == "assistant") []
    usage ← given [] (nested message "usage")
    counted ← claude_tokens usage
    at' ←
        given ("claude_code_jsonl_missing_time" ∷ []) (read_time (string_field record' "timestamp"))
    let session = text_value record' fallback ("sessionId" ∷ "session_id" ∷ [])
    guard (not (trim_text session == "")) ("claude_code_jsonl_missing_session" ∷ [])
    let c = counted.0
    ok (
      record {
        harness = "claude-code";
        source_id = hash (String.◌++◌ "claude-code-session:" session);
        source_kind = kind;
        occurred_at_ms = some at';
        session_id = some session;
        message_id = or_else (string_field (fields_of message) "id") (string_field record' "uuid");
        provider = text_field (fields_of message) ("provider" ∷ "provider_id" ∷ "providerID" ∷ []);
        model = text_field (fields_of message) ("model" ∷ "model_id" ∷ "modelID" ∷ []);
        usage_scope = "message";
        quality = "derived";
        input_tokens = c.input;
        output_tokens = c.output;
        reasoning_tokens = c.reasoning;
        cache_read_tokens = c.cache_read;
        cache_write_tokens = c.cache_write;
        total_tokens = c.total;
      },
      counted.1 ++ (if valid_timestamp_ms at' then [] else "claude_code_jsonl_invalid_time" ∷ []),
    )
