-- ===== src/Evidence/Records.antt =====
-- packages/core/evidence/codec.go: which records a server takes. The data of a record is decoded JSON, none
-- where it is no JSON.
pub mod Compared
pub mod Private
use tokeninsights.Prelude.{
  ℕ, suc, ◌+◌, codes, String, Bool, true, false, not, ◌&&◌, ◌||◌, List, [], ◌∷◌, Option, none, some,
  is_none, one_of, ltb, leb, length, ◌==◌, nat_eq, string_eq, if◌then◌else◌,
}
use tokeninsights.Prelude.Int.{ℤ, pos, ltb_ℤ}
use tokeninsights.Prelude.Results.{Result, err, ok, guard, ◌>>=◌, ◌>>◌}
use tokeninsights.Publication.{safe_integer}
use tokeninsights.Publication.Text.{byte_length, any_of}
use tokeninsights.Evidence.Json.{
  Json, null, truth, number, text, array, object, Items, nil, item, Members, end, member, value_of,
  FieldPath, leaf,
}
use tokeninsights.Evidence.Sanitize.{contains_text, safe_metadata, decode_object, sanitize}

-- Location
pub record Place : Type 0 where
  pub directory_key : String
  pub directory_name : String
  pub repository_key : String
  pub repository_name : String
  pub repository_source : String

-- Context
pub record NativeContext : Type 0 where
  pub ordinal : ℤ
  pub content : Option Json
  pub diagnostics : List String

-- Record
pub record SourceRecord : Type 0 where
  pub harness : String
  pub format : String
  pub source_id : String
  pub lineage : String
  pub ordinal : ℤ
  pub content : Option Json
  pub context : List NativeContext
  pub location : Option Place
  pub diagnostics : List String

abbrev pub has : String → Members → Bool
has name ms = not (is_none (value_of name ms))

-- len of the map that the members make
unfoldable pub key_count : Members → ℕ
key_count end = 0
key_count (member key v rest) = (if has key rest then 0 else 1) + key_count rest

abbrev pub held : Option Json → Json
held none = null
held (some w) = w

abbrev pub same_truth : Bool → Bool → Bool
same_truth true b = b
same_truth false b = not b

-- reflect.DeepEqual of decoded values, with the spelling of numbers compared.
unfoldable mutual
  pub same : Json → Json → Bool
  same null null = true
  same (truth a) (truth b) = same_truth a b
  same (number s) (number t) = s == t
  same (text s) (text t) = s == t
  same (array xs) (array ys) = same_items xs ys
  same (object ms) (object ns) = key_count ms == key_count ns && included ms ns
  same _ _ = false

  pub same_items : Items → Items → Bool
  same_items nil nil = true
  same_items (item x xs) (item y ys) = same x y && same_items xs ys
  same_items _ _ = false

  -- What the members make stands in the others.
  pub included : Members → Members → Bool
  included end ns = true
  included (member key v rest) ns =
      (has key rest || has key ns && same v (held (value_of key ns))) && included rest ns

-- `validID`
unfoldable pub valid_id : String → Bool
valid_id value =
    leb 1 (byte_length (codes value))
    && (safe_metadata value
        && (not (any_of (λ c. c == b'/') (codes value))
            && not (any_of (λ c. c == b' ') (codes value))))

abbrev pub text_in : Option Json → String
text_in (some (text s)) = s
text_in _ = ""

-- `String`, the path split.
unfoldable pub string_at : Option Json → FieldPath → String
string_at (some (object ms)) path = text_in (leaf path ms)
string_at _ path = ""

-- The data is what `Sanitize` leaves of it.
unfoldable pub check_data : String → String → Option Json → Result String (Unit {0})
check_data harness format content = do
  kept ← sanitize harness format content
  source ← decode_object content
  guard (same (object source) (object kept.0)) "private_or_unknown_field"

unfoldable pub check_identity : SourceRecord → Bool
check_identity r =
    valid_id r.source_id
    && (valid_id r.lineage
        && (not (ltb_ℤ r.ordinal (pos 0)) && not (ltb_ℤ (pos safe_integer) r.ordinal)))

unfoldable pub check_diagnostics : List String → Result String (Unit {0})
check_diagnostics [] = ok tt
check_diagnostics (code ∷ rest) =
    guard
      (one_of
        ("invalid_field_type" ∷ "unsafe_metadata" ∷ "field_limit" ∷ "native_subagent_present" ∷ [])
        code)
      "invalid_diagnostic"
    >> check_diagnostics rest

unfoldable pub repository_source_rank : String → ℕ
repository_source_rank source =
    if source == "harness"
    then 4
    else if source == "git-remote"
    then 3
    else if source == "git-common-dir"
    then 2
    else if source == "opencode-project"
    then 1
    else 0

unfoldable pub safe_labels : List String → Bool
safe_labels [] = true
safe_labels (value ∷ rest) =
    (safe_metadata value && not (any_of (λ c. c == b'/') (codes value))) && safe_labels rest

unfoldable pub check_place : Option Place → Result String (Unit {0})
check_place none = ok tt
check_place (some l) = do
  guard (not (l.directory_key == "" && l.repository_key == "")) "invalid_location"
  guard
      (safe_labels (l.directory_key ∷ l.directory_name ∷ l.repository_key ∷ l.repository_name ∷ []))
      "invalid_location"
  guard (l.repository_source == "" || not (repository_source_rank l.repository_source == 0))
      "invalid_location"

unfoldable pub context_kind : String → Option Json → Bool
context_kind harness content =
    let kind = string_at content ("type" ∷ []) in
    harness == "pi" && kind == "session"
    || harness == "codex"
      && (kind == "session_meta"
          || kind == "turn_context"
          || kind == "event_msg" && string_at content ("payload" ∷ "type" ∷ []) == "task_started")

-- The checks of a record before its context.
unfoldable pub check_record : SourceRecord → Result String (Unit {0})
check_record r = do
  guard (check_identity r) "invalid_identity"
  check_data r.harness r.format r.content
  guard (not (ltb 3 (length r.context)) && not (ltb 8 (length r.diagnostics))) "body_limit"

abbrev pub clone_of : SourceRecord → NativeContext → SourceRecord
clone_of r c = record r {
  ordinal = c.ordinal;
  content = c.content;
  context = [];
  location = none;
  diagnostics = c.diagnostics;
}

-- One turn of the loop over the context, with `ValidateRecord` of the clone, which has none.
unfoldable pub check_context : SourceRecord → NativeContext → Result String (Unit {0})
check_context r c = do
  guard (not (ltb_ℤ c.ordinal (pos 0)) && not (ltb_ℤ r.ordinal c.ordinal)) "invalid_context"
  check_record (clone_of r c)
  check_diagnostics c.diagnostics
  guard (context_kind r.harness c.content) "invalid_context"

unfoldable pub check_contexts : SourceRecord → List NativeContext → Result String (Unit {0})
check_contexts r [] = ok tt
check_contexts r (c ∷ cs) = check_context r c >> check_contexts r cs

-- `ValidateRecord`
unfoldable pub validate_record : SourceRecord → Result String (Unit {0})
validate_record r = do
  check_record r
  check_contexts r r.context
  check_diagnostics r.diagnostics
  check_place r.location
