-- ===== src/Processor/Native.antt =====
-- helpers.go and codex.go: decoded records of a source as trees, and the metadata of a Codex
-- session that is read from them. A nil pointer is `none`.
pub mod Linked
use Prim.Native.Char.{Char, code}
use tokeninsights.Prelude.{
  String, Bool, true, false, not, ◌&&◌, ◌||◌, List, [], ◌∷◌, Option, none, some, is_none, ◌==◌,
  string_eq, if◌then◌else◌,
}
use tokeninsights.Publication.Text.{is_space}

-- What a field of a decoded object holds; the JSON null is Go's nil.
mutual
  pub data Native : Type 0 where
    null other : Native
    number text : String → Native
    object : Fields → Native

  pub data Fields : Type 0 where
    end : Fields
    field : String → Native → Fields → Fields

-- record[name]
unfoldable pub field_of : String → Fields → Option Native
field_of name end = none
field_of name (field key v rest) =
    let later = field_of name rest in if key == name then some v else later

-- A missing object reads like an empty one.
unfoldable pub fields_of : Option Fields → Fields
fields_of none = end
fields_of (some fs) = fs

-- `Nested`; the record is none if it is nil.
unfoldable pub nested : Option Fields → String → Option Fields
nested record' key = elim (field_of key (fields_of record')) [
  | some (object fs) ↦ some fs
  | _ ↦ none
]

unfoldable pub trim_left_text : String → String
trim_left_text String.[] = ""
trim_left_text (String.◌∷◌ c rest) =
    let later = trim_left_text rest in if is_space (code c) then later else String.◌∷◌ c rest

unfoldable pub keep_unless_space : Char → String → String
keep_unless_space c String.[] = if is_space (code c) then "" else String.◌∷◌ c ""
keep_unless_space c (String.◌∷◌ d rest) = String.◌∷◌ c (String.◌∷◌ d rest)

unfoldable pub trim_right_text : String → String
trim_right_text String.[] = ""
trim_right_text (String.◌∷◌ c rest) = keep_unless_space c (trim_right_text rest)

-- strings.TrimSpace
unfoldable pub trim_text : String → String
trim_text s = trim_right_text (trim_left_text s)

unfoldable pub given_text : String → Option String
given_text s = if trim_text s == "" then none else some (trim_text s)

abbrev pub text_of : Option Native → Option String
text_of (some (text s)) = given_text s
text_of _ = none

-- `StringField` of one name
unfoldable pub string_field : Fields → String → Option String
string_field record' name = text_of (field_of name record')

abbrev pub text_or : String → Option String → String
text_or fallback none = fallback
text_or fallback (some s) = s

-- `StringValue` of one name
unfoldable pub string_value : Fields → String → String → String
string_value record' fallback name = text_or fallback (string_field record' name)

pub record SourceMetadata : Type 0 where
  pub session_id : String
  pub parent_id : String
  pub fork : Bool
  pub conflict : Bool

-- Whether the field is there and not null.
unfoldable pub is_set : Option Native → Bool
is_set none = false
is_set (some null) = false
is_set (some _) = true

-- What a reference to a parent, read as `reference`, makes of the metadata.
abbrev pub refer : Option String → SourceMetadata → SourceMetadata
refer none m = record m { fork = true; conflict = true }
refer (some parent) m = record m {
  fork = true;
  conflict = if not (m.parent_id == "") && not (m.parent_id == parent) then true else m.conflict;
  parent_id = parent;
}

-- One turn of the loop over the fields that name a parent.
unfoldable pub note_parent : Fields → String → SourceMetadata → SourceMetadata
note_parent fs name m = if is_set (field_of name fs) then refer (string_field fs name) m else m

-- `codexMetadataFromPayload`
unfoldable pub metadata_from_payload : Option Fields → String → SourceMetadata
metadata_from_payload payload fallback =
    let source = nested payload "source" in
    let spawn = nested (nested source "subagent") "thread_spawn" in
    let start : SourceMetadata = record {
      session_id = string_value (fields_of payload) fallback "id";
      parent_id = "";
      fork = is_set (field_of "subagent" (fields_of source));
      conflict = false;
    } in
    note_parent (fields_of spawn) "parent_thread_id" (
      note_parent (fields_of payload) "parent_thread_id"
        (note_parent (fields_of payload) "forked_from_id" start))
