-- ===== src/Evidence/Sanitize.antt =====
-- packages/core/evidence/whitelist.go: which fields of a source's record are kept, and in what form.
pub mod Kept
pub mod Formats
pub mod Again
mod Examples
use Prim.Native.Char.{Char, code}
use Prim.Native.String
use tokeninsights.Prelude.{
  ℕ, codes, String, Bool, true, false, not, ◌&&◌, ◌||◌, List, [], ◌∷◌, ◌++◌, map, Option, none,
  some, is_none, ltb, leb, ◌==◌, nat_eq, string_eq, if◌then◌else◌,
}
use tokeninsights.Prelude.Results.{Result, err, ok, ◌>>=◌}
use tokeninsights.Publication.{max_string_bytes}
use tokeninsights.Publication.Text.{byte_length, any_of, is_control}
use tokeninsights.CollectorProgress.Snapshot.{codes_lt}
use tokeninsights.Evidence.Json.{
  Json, null, truth, number, text, array, object, Members, end, value_of, FieldPath, leaf, set_leaf,
}

abbrev pub shared_tokens : List String
shared_tokens =
    "data.tokens.input" ∷ "data.tokens.output" ∷ "data.tokens.reasoning" ∷ "data.tokens.cache.read"
    ∷ "data.tokens.cache.write" ∷ "data.time.created" ∷ "data.time.completed" ∷ []

abbrev pub opencode_v1 : List String
opencode_v1 =
    "id" ∷ "session_id" ∷ "time_created" ∷ "data.role" ∷ "data.modelID" ∷ "data.providerID"
    ∷ shared_tokens

abbrev pub opencode_v2 : List String
opencode_v2 =
    "id" ∷ "session_id" ∷ "type" ∷ "time_created" ∷ "data.model.id" ∷ "data.model.providerID"
    ∷ shared_tokens

abbrev pub pi_jsonl : List String
pi_jsonl =
    "type" ∷ "id" ∷ "timestamp" ∷ "message.role" ∷ "message.timestamp" ∷ "message.provider"
    ∷ "message.model" ∷ "message.usage.input" ∷ "message.usage.output" ∷ "message.usage.reasoning"
    ∷ "message.usage.cacheRead" ∷ "message.usage.cacheWrite" ∷ "message.usage.totalTokens" ∷ []

abbrev pub claude_code_jsonl : List String
claude_code_jsonl =
    "type" ∷ "timestamp" ∷ "uuid" ∷ "sessionId" ∷ "session_id" ∷ "requestId" ∷ "request_id"
    ∷ "message.role" ∷ "message.id" ∷ "message.provider" ∷ "message.provider_id"
    ∷ "message.providerID" ∷ "message.model" ∷ "message.model_id" ∷ "message.modelID"
    ∷ "message.usage.input_tokens" ∷ "message.usage.output_tokens"
    ∷ "message.usage.cache_read_input_tokens" ∷ "message.usage.cache_creation_input_tokens"
    ∷ "message.usage.total_tokens" ∷ "message.usage.output_tokens_details.thinking_tokens"
    ∷ "message.usage.output_tokens_details.reasoning_tokens" ∷ []

abbrev pub codex_leaves : List String
codex_leaves =
    "input_tokens" ∷ "cached_input_tokens" ∷ "cache_read_input_tokens" ∷ "output_tokens"
    ∷ "reasoning_output_tokens" ∷ "total_tokens" ∷ []

abbrev pub codex_jsonl : List String
codex_jsonl =
    ("type" ∷ "timestamp" ∷ "payload.type" ∷ "payload.id" ∷ "payload.model_provider"
      ∷ "payload.forked_from_id" ∷ "payload.parent_thread_id"
      ∷ "payload.source.subagent.thread_spawn.parent_thread_id" ∷ "payload.turn_id"
      ∷ "payload.model" ∷ [])
    ++ (map (String.◌++◌ "payload.info.last_token_usage.") codex_leaves
        ++ map (String.◌++◌ "payload.info.total_token_usage.") codex_leaves)

-- `paths`
unfoldable pub paths : String → String → Option (List String)
paths harness format =
    if harness == "opencode"
    then if format == "opencode-v1"
      then some opencode_v1
      else if format == "opencode-v2"
      then some opencode_v2
      else if format == "opencode-session"
      then some ("id" ∷ "project_id" ∷ [])
      else if format == "opencode-project"
      then some ("id" ∷ "vcs" ∷ [])
      else none
    else if harness == "pi"
    then if format == "pi-jsonl" then some pi_jsonl else none
    else if harness == "claude-code"
    then if format == "claude-code-jsonl" then some claude_code_jsonl else none
    else if harness == "codex"
    then if format == "codex-jsonl" then some codex_jsonl else none
    else none

abbrev pub extend : Char → List String → List String
extend c [] = String.◌∷◌ c "" ∷ []
extend c (part ∷ parts) = String.◌∷◌ c part ∷ parts

-- strings.Split(path, ".")
unfoldable pub split : String → List String
split String.[] = "" ∷ []
split (String.◌∷◌ c rest) =
    let parts = split rest in if code c == b'.' then "" ∷ parts else extend c parts

-- strings.HasPrefix
unfoldable pub starts_with : List ℕ → List ℕ → Bool
starts_with [] cs = true
starts_with (p ∷ ps) [] = false
starts_with (p ∷ ps) (c ∷ cs) = c == p && starts_with ps cs

-- strings.Contains
unfoldable pub contains_text : List ℕ → List ℕ → Bool
contains_text part [] = starts_with part []
contains_text part (c ∷ cs) = starts_with part (c ∷ cs) || contains_text part cs

-- A drive letter before its path; a byte after a longer character is no colon.
unfoldable pub on_drive : List ℕ → Bool
on_drive (c ∷ d ∷ e ∷ cs) = ltb c 128 && (d == b':' && e == b'/')
on_drive _ = false

-- `SafeMetadata`; a text is a list of code points, so it is valid UTF-8.
unfoldable pub safe_metadata : String → Bool
safe_metadata value =
    let cs = codes value in
    not (
      ltb max_string_bytes (byte_length cs)
      || starts_with (codes "/") cs
      || starts_with (codes "\\") cs
      || contains_text (codes "://") cs
      || contains_text (codes "@") cs
      || contains_text (codes "\\") cs)
    && (not (on_drive cs) && not (any_of is_control cs))

-- Why a value is not kept. The texts of null, true and false are short enough.
unfoldable pub fault : Json → Option String
fault (array xs) = some "invalid_field_type"
fault (object ms) = some "invalid_field_type"
fault (text s) = if safe_metadata s then none else some "unsafe_metadata"
fault (number n) = if ltb max_string_bytes (byte_length (codes n)) then some "field_limit" else none
fault null = none
fault (truth b) = none

-- What is kept of a value.
unfoldable pub clean : Json → Json
clean v = if is_none (fault v) then v else null

-- A code put into the sorted set of the diagnostics.
unfoldable pub add_code : String → List String → List String
add_code c [] = c ∷ []
add_code c (d ∷ ds) =
    let later = add_code c ds in
    if c == d then d ∷ ds else if codes_lt (codes c) (codes d) then c ∷ d ∷ ds else d ∷ later

abbrev pub note : Option String → List String → List String
note none ds = ds
note (some c) ds = add_code c ds

-- The record that is made, and the diagnostics.
abbrev pub Kept : Type 0
Kept = Members × List String

abbrev pub keep : FieldPath → Option Json → Kept → Kept
keep parts none k = k
keep parts (some v) k = (set_leaf parts (clean v) k.0, note (fault v) k.1)

-- The loop over the allowed paths.
unfoldable pub keep_all : Members → List String → Kept → Kept
keep_all source [] k = k
keep_all source (path ∷ rest) k =
    keep_all source rest (keep (split path) (leaf (split path) source) k)

abbrev pub is_given : Option Json → Bool
is_given none = false
is_given (some null) = false
is_given (some _) = true

unfoldable pub note_subagent : String → Members → List String → List String
note_subagent harness source ds =
    if harness == "codex" && is_given (leaf ("payload" ∷ "source" ∷ "subagent" ∷ []) source)
    then add_code "native_subagent_present" ds
    else ds

-- `decodeObject`; a text that is no JSON is `none`.
unfoldable pub decode_object : Option Json → Result String Members
decode_object (some (object ms)) = ok ms
decode_object _ = err "invalid_source_record"

abbrev pub sanitize_object : String → Members → List String → Kept
sanitize_object harness source allowed =
    let kept = keep_all source allowed (end, []) in (kept.0, note_subagent harness source kept.1)

abbrev pub sanitize_by : String → Option Json → Option (List String) → Result String Kept
sanitize_by harness body none = err "unsupported_source_format"
sanitize_by harness body (some allowed) = do
  source ← decode_object body
  ok (sanitize_object harness source allowed)

-- `Sanitize`
unfoldable pub sanitize : String → String → Option Json → Result String Kept
sanitize harness format body = sanitize_by harness body (paths harness format)
