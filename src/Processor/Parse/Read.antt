-- ===== src/Processor/Parse/Read.antt =====
-- The fields of decoded JSON as the parsers read them.
use tokeninsights.Prelude.{
  String, Option, none, some, ◌≡◌, refl, ◌∙◌, Bool-cases, inl, inr, ◌==◌, string_eq,
}
use tokeninsights.Evidence.Json.{Json, Members, value_of, or_later}
use tokeninsights.Processor.Native.{Native, Fields, field, field_of}
use tokeninsights.Processor.Session.{or_else}
use tokeninsights.Processor.Parse.{native_of, native_fields, fields_from}

abbrev pub native_value : Option Json → Option Native
native_value none = none
native_value (some v) = some (native_of v)

added :
    (name key : String) (v : Json) (later : Fields) (found : Option Json)
    → or_else (native_value found) (field_of name (field key (native_of v) later))
      ≡ or_else (native_value (or_later found (key == name) v)) (field_of name later)
unfolding field_of
added name key v later (some w) = refl
added name key v later none = elim (Bool-cases (key == name)) [
  | inl same ↦ rw same refl
  | inr other ↦ rw other refl
]

field_of-fields_from :
    (name : String) (ms : Members) (later : Fields)
    → field_of name (fields_from ms later)
      ≡ or_else (native_value (value_of name ms)) (field_of name later)
unfolding native_of value_of
field_of-fields_from name Members.end later = refl
field_of-fields_from name (Members.member key v rest) later =
    field_of-fields_from name rest (field key (native_of v) later)
    ∙ added name key v later (value_of name rest)

or_else-none : (found : Option Native) → or_else found none ≡ found
or_else-none none = refl
or_else-none (some v) = refl

-- A parser finds under a name what the decoded object has under it.
pub field_of-native_fields :
    (name : String) (ms : Members)
    → field_of name (native_fields ms) ≡ native_value (value_of name ms)
unfolding field_of
field_of-native_fields name ms = field_of-fields_from name ms Fields.end ∙ or_else-none _
