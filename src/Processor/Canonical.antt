-- ===== src/Processor/Canonical.antt =====
-- native_types.go: the provider and the model of a fact, from those that the source names.
use Prim.Native.Char.{code}
use tokeninsights.Prelude.{
  codes, String, Bool, not, ◌&&◌, ◌||◌, Option, none, some, ◌==◌, string_eq, nat_eq, if◌then◌else◌,
}
use tokeninsights.Evidence.Sanitize.{contains_text}
use tokeninsights.Processor.Native.{given_text, text_or}

-- `countable`
unfoldable pub countable : String → Bool
countable scope = not (contains_text (codes "fallback") (codes scope))

abbrev pub given_of : Option String → Option String
given_of none = none
given_of (some s) = given_text s

-- `normalizedText`
unfoldable pub normalized_text : Option String → String → String
normalized_text value fallback = text_or fallback (given_of value)

abbrev pub known_harness : String → Bool
known_harness harness =
    harness == "opencode" || (harness == "pi" || (harness == "codex" || harness == "claude-code"))

-- ProviderAliases[harness][provider], or the provider itself
unfoldable pub provider_alias : String → String → String
provider_alias harness provider =
    if harness == "pi" && provider == "openai-codex"
    then "openai"
    else if known_harness harness && provider == "fireworks-ai"
    then "fireworks"
    else provider

-- `canonicalProvider`: the provider and where it comes from.
unfoldable pub canonical_provider : String → Option String → String × String
canonical_provider harness provider =
    let name = normalized_text provider "" in
    if not (name == "")
    then (provider_alias harness name, "explicit")
    else if harness == "claude-code"
    then ("maybe-anthropic", "inferred")
    else ("unknown", "unknown")

-- strings.TrimPrefix where the prefix is there
unfoldable pub strip_prefix : String → String → Option String
strip_prefix String.[] s = some s
strip_prefix (String.◌∷◌ p ps) String.[] = none
strip_prefix (String.◌∷◌ p ps) (String.◌∷◌ c rest) =
    let later = strip_prefix ps rest in if code p == code c then later else none

-- ModelPrefixes[provider]
unfoldable pub model_prefix : String → Option String
model_prefix provider = if provider == "fireworks" then some "accounts/fireworks/models/" else none

abbrev pub stripped : String → Option String → String
stripped model none = model
stripped model (some rest) = if rest == "" then model else rest

abbrev pub without_prefix : String → Option String → String
without_prefix model none = model
without_prefix model (some prefix') = stripped model (strip_prefix prefix' model)

-- `canonicalModel`
unfoldable pub canonical_model : Option String → String → String
canonical_model model provider =
    without_prefix (normalized_text model "unknown") (model_prefix provider)
