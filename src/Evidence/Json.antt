-- ===== src/Evidence/Json.antt =====
-- JSON as packages/core/evidence/whitelist.go decodes it: a number keeps its spelling, and an object its
-- members in their order, of which the last of a name counts, as in a Go map.
pub mod Leaves
use tokeninsights.Prelude.{
  String, Bool, true, false, List, [], ◌∷◌, Option, none, some, is_none, ◌==◌, string_eq,
  if◌then◌else◌,
}

mutual
  pub data Json : Type 0 where
    null : Json
    truth : Bool → Json
    number text : String → Json
    array : Items → Json
    object : Members → Json

  pub data Items : Type 0 where
    nil : Items
    item : Json → Items → Items

  pub data Members : Type 0 where
    end : Members
    member : String → Json → Members → Members

abbrev pub or_later : Option Json → Bool → Json → Option Json
or_later (some w) named v = some w
or_later none named v = if named then some v else none

-- object.fields[name]
unfoldable pub value_of : String → Members → Option Json
value_of name end = none
value_of name (member key v rest) = or_later (value_of name rest) (key == name) v

-- The parts of a path, at least one.
abbrev pub FieldPath : Type 0
FieldPath = List String

abbrev pub members_of : Option Json → Members
members_of (some (object ms)) = ms
members_of _ = end

-- `leaf`, with `parseSourceObject` of the members on the way.
unfoldable pub leaf : FieldPath → Members → Option Json
leaf [] ms = none
leaf (p ∷ []) ms = value_of p ms
leaf (p ∷ q ∷ qs) ms = leaf (q ∷ qs) (members_of (value_of p ms))

-- object[name] = value
unfoldable pub put : String → Json → Members → Members
put name v end = member name v end
put name v (member key w rest) =
    let later = put name v rest in if key == name then member name v rest else member key w later

-- `setLeaf`
unfoldable pub set_leaf : FieldPath → Json → Members → Members
set_leaf [] v ms = ms
set_leaf (p ∷ []) v ms = put p v ms
set_leaf (p ∷ q ∷ qs) v ms = put p (object (set_leaf (q ∷ qs) v (members_of (value_of p ms)))) ms

abbrev pub is_object : Json → Bool
is_object (object ms) = true
is_object _ = false
