-- ===== src/Processor/OpenCode.antt =====
-- opencode.go: the usage in a message of OpenCode, of the two formats. Names of fields match exactly, as they
-- do in what was sanitized; the keys that only captured facts had are left out.
pub mod Counts
use tokeninsights.Prelude.{
  codes, String, Bool, true, false, not, ◌&&◌, ◌||◌, List, [], ◌∷◌, ◌++◌, Option, none, some,
  is_none, ◌==◌, string_eq, if◌then◌else◌,
}
use tokeninsights.Prelude.Int.{ℤ, pos}
use tokeninsights.Prelude.Results.{Result, err, ok, guard, ◌>>=◌, ◌>>◌}
use tokeninsights.Processor.Json.{parse_int}
use tokeninsights.Processor.Tokens.{is_negative, clamp_token, token_component_sum}
use tokeninsights.Processor.Native.{
  Native, null, other, number, text, object, Fields, field_of, fields_of, trim_text, given_text,
}
use tokeninsights.Processor.Session.{RawTokenFact, or_else}
use tokeninsights.Processor.Pi.{given}

pub record OpencodeTokenCache : Type 0 where
  pub read : Option ℤ
  pub write : Option ℤ

pub record OpencodeTokenData : Type 0 where
  pub input : Option ℤ
  pub output : Option ℤ
  pub reasoning : Option ℤ
  pub cache : Option OpencodeTokenCache

-- The parts of the two structs that the facts are made of. `role` is empty in the second format.
pub record OpencodeMessage : Type 0 where
  pub role : String
  pub provider : String
  pub model : String
  pub tokens : Option OpencodeTokenData
  pub created : Option ℤ

abbrev pub parse_error : List String
parse_error = "opencode_sqlite_parse_error" ∷ []

-- What `json.Unmarshal` makes of a field that is a string, an integer or an object; null and a missing
-- field leave it as it is.
abbrev pub decode_string : Option Native → Result (List String) String
decode_string none = ok ""
decode_string (some null) = ok ""
decode_string (some (text s)) = ok s
decode_string (some _) = err parse_error

abbrev pub decode_int : Option Native → Result (List String) (Option ℤ)
decode_int none = ok none
decode_int (some null) = ok none
decode_int (some (number s)) = elim (parse_int (codes s)) [
  | none ↦ err parse_error
  | some n ↦ ok (some n)
]
decode_int (some _) = err parse_error

abbrev pub decode_struct : Option Native → Result (List String) (Option Fields)
decode_struct none = ok none
decode_struct (some null) = ok none
decode_struct (some (object fs)) = ok (some fs)
decode_struct (some _) = err parse_error

abbrev pub decode_cache : Option Fields → Result (List String) (Option OpencodeTokenCache)
decode_cache none = ok none
decode_cache (some fs) = do
  r ← decode_int (field_of "read" fs)
  w ← decode_int (field_of "write" fs)
  ok (some (record { read = r; write = w }))

abbrev pub decode_tokens : Option Fields → Result (List String) (Option OpencodeTokenData)
decode_tokens none = ok none
decode_tokens (some fs) = do
  input ← decode_int (field_of "input" fs)
  output ← decode_int (field_of "output" fs)
  reasoning ← decode_int (field_of "reasoning" fs)
  inner ← decode_struct (field_of "cache" fs)
  cache ← decode_cache inner
  ok (some (record { input = input; output = output; reasoning = reasoning; cache = cache }))

-- The times of a message, of which `completed` must be an integer too.
abbrev pub decode_created : Option Fields → Result (List String) (Option ℤ)
decode_created none = ok none
decode_created (some fs) = do
  created ← decode_int (field_of "created" fs)
  completed ← decode_int (field_of "completed" fs)
  ok created

-- `opencodeMessageData`
unfoldable pub decode_message : Fields → Result (List String) OpencodeMessage
decode_message data' = do
  role ← decode_string (field_of "role" data')
  model ← decode_string (field_of "modelID" data')
  provider ← decode_string (field_of "providerID" data')
  given_tokens ← decode_struct (field_of "tokens" data')
  tokens ← decode_tokens given_tokens
  times ← decode_struct (field_of "time" data')
  created ← decode_created times
  ok (record {
    role = role;
    provider = provider;
    model = model;
    tokens = tokens;
    created = created;
  })

-- `opencodeV2MessageData`
unfoldable pub decode_v2_message : Fields → Result (List String) OpencodeMessage
decode_v2_message data' = do
  named ← decode_struct (field_of "model" data')
  model ← decode_string (field_of "id" (fields_of named))
  provider ← decode_string (field_of "providerID" (fields_of named))
  given_tokens ← decode_struct (field_of "tokens" data')
  tokens ← decode_tokens given_tokens
  times ← decode_struct (field_of "time" data')
  created ← decode_created times
  ok (record { role = ""; provider = provider; model = model; tokens = tokens; created = created })

abbrev pub read_of : Option OpencodeTokenCache → Option ℤ
read_of none = none
read_of (some c) = c.read

abbrev pub write_of : Option OpencodeTokenCache → Option ℤ
write_of none = none
write_of (some c) = c.write

unfoldable pub opencode_cache_read : OpencodeTokenData → Option ℤ
opencode_cache_read t = read_of t.cache

unfoldable pub opencode_cache_write : OpencodeTokenData → Option ℤ
opencode_cache_write t = write_of t.cache

abbrev pub opencode_parts : OpencodeTokenData → List (Option ℤ)
opencode_parts t =
    t.input ∷ t.output ∷ t.reasoning ∷ opencode_cache_read t ∷ opencode_cache_write t ∷ []

-- `hasUsableOpenCodeTokens`
unfoldable pub has_usable_tokens : OpencodeTokenData → Bool
has_usable_tokens t =
    not (is_none t.input)
    || (not (is_none t.output)
        || (not (is_none t.reasoning)
            || (not (is_none (opencode_cache_read t)) || not (is_none (opencode_cache_write t)))))

abbrev pub clamp_cache : Option OpencodeTokenCache → Option OpencodeTokenCache
clamp_cache none = none
clamp_cache (some c) = some (record { read = clamp_token c.read; write = clamp_token c.write })

-- `clampOpenCodeTokens`: what becomes of the tokens, and whether one was negative.
unfoldable pub clamp_opencode_tokens : OpencodeTokenData → OpencodeTokenData
clamp_opencode_tokens t = record {
  input = clamp_token t.input;
  output = clamp_token t.output;
  reasoning = clamp_token t.reasoning;
  cache = clamp_cache t.cache;
}

unfoldable pub opencode_negative : OpencodeTokenData → Bool
opencode_negative t =
    is_negative t.input
    || (is_negative t.output
        || (is_negative t.reasoning
            || (is_negative (opencode_cache_read t) || is_negative (opencode_cache_write t))))

-- `openCodeTokenTotal`
unfoldable pub opencode_token_total : OpencodeTokenData → Option ℤ
opencode_token_total t = token_component_sum (opencode_parts t)

-- `stringPtrFromTrimmed` is `given_text`.
abbrev pub default_zero : Option ℤ → Option ℤ
default_zero none = some (pos 0)
default_zero (some v) = some v

-- The checks and the clamping that the two formats share.
unfoldable pub opencode_tokens :
    Option OpencodeTokenData → Result (List String) (OpencodeTokenData × List String)
opencode_tokens there = do
  t ← given ("opencode_sqlite_missing_tokens" ∷ []) there
  guard (has_usable_tokens t) ("opencode_sqlite_missing_tokens" ∷ [])
  let c = clamp_opencode_tokens t
  total ← given ("opencode_sqlite_invalid_tokens" ∷ []) (opencode_token_total c)
  ok (c, if opencode_negative t then "opencode_sqlite_negative_tokens" ∷ [] else [])

-- The fact of a message; `created` is the time of the row.
unfoldable pub opencode_fact :
    String
    → String
    → String
    → String
    → Option ℤ
    → OpencodeMessage
    → Result (List String) (RawTokenFact × List String)
opencode_fact source kind message session created m = do
  counted ← opencode_tokens m.tokens
  at' ← given ("opencode_sqlite_missing_time" ∷ []) (or_else m.created created)
  let t = counted.0
  ok (
    record {
      harness = "opencode";
      source_id = source;
      source_kind = kind;
      occurred_at_ms = some at';
      session_id = given_text (trim_text session);
      message_id = given_text message;
      provider = given_text m.provider;
      model = given_text m.model;
      usage_scope = "message";
      quality = "exact";
      input_tokens = t.input;
      output_tokens = t.output;
      reasoning_tokens = default_zero t.reasoning;
      cache_read_tokens = opencode_cache_read t;
      cache_write_tokens = opencode_cache_write t;
      total_tokens = none;
    },
    counted.1,
  )

abbrev pub opencode_data : Option Native → Result (List String) Fields
opencode_data none = err parse_error
opencode_data (some v) = do fs ← decode_struct (some v); ok (fields_of fs)

-- `factFromMessage`; `data'` is the data of the row.
unfoldable pub fact_from_message :
    String
    → String
    → String
    → String
    → Option ℤ
    → Option Native
    → Result (List String) (RawTokenFact × List String)
fact_from_message source kind message session created data' = do
  fs ← opencode_data data'
  m ← decode_message fs
  guard (m.role == "assistant") []
  opencode_fact source kind message session created m

-- `factFromV2Message`
unfoldable pub fact_from_v2_message :
    String
    → String
    → String
    → String
    → Option ℤ
    → Option Native
    → Result (List String) (RawTokenFact × List String)
fact_from_v2_message source kind message session created data' = do
  fs ← opencode_data data'
  m ← decode_v2_message fs
  opencode_fact source kind message session created m
