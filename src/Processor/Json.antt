-- ===== src/Processor/Json.antt =====
-- The values of decoded JSON objects, and the integers that codex.go reads from them.
use tokeninsights.Prelude.{
  ℕ, zero, suc, ◌+◌, ◌-◌, ◌*◌, ◌^◌, String, Bool, true, false, ◌&&◌, ◌||◌, List, [], ◌∷◌, Option,
  none, some, leb, ◌==◌, nat_eq, if◌then◌else◌, codes,
}
use tokeninsights.Prelude.Int.{ℤ, pos, negsuc}
use tokeninsights.Prelude.Maps.{Map, lookup}
use tokeninsights.Publication.Text.{is_space}

-- What a field holds: the text of a `json.Number`, a string, a float by the `int64` that it is, if
-- it is one, or anything else.
pub data JsonValue : Type 0 where
  number : String → JsonValue
  text : String → JsonValue
  real : Option ℤ → JsonValue
  other : JsonValue

abbrev pub Usage : Type 0
Usage = Map JsonValue

abbrev pub max_int64 : ℕ
max_int64 = 2 ^ 63 - 1

is_digit : ℕ → Bool
is_digit c = leb b'0' c && leb c b'9'

-- The digits read on from `n`.
digits_from : ℕ → List ℕ → Option ℕ
unfolding is_digit
digits_from n [] = some n
digits_from n (c ∷ cs) =
    let rest = digits_from (n * 10 + (c - b'0')) cs in if is_digit c then rest else none

digits : List ℕ → Option ℕ
unfolding digits_from
digits [] = none
digits (c ∷ cs) = digits_from 0 (c ∷ cs)

-- The number of that sign, in the range of `int64`.
signed : Bool → Option ℕ → Option ℤ
signed negative none = none
signed false (some n) = if leb n max_int64 then some (pos n) else none
signed true (some zero) = some (pos 0)
signed true (some (suc n)) = if leb n max_int64 then some (negsuc n) else none

-- strconv.ParseInt(s, 10, 64), none for an error
unfoldable pub parse_int : List ℕ → Option ℤ
unfolding signed digits
parse_int [] = none
parse_int (c ∷ cs) =
    if c == b'-'
    then signed true (digits cs)
    else if c == b'+'
    then signed false (digits cs)
    else signed false (digits (c ∷ cs))

unfoldable pub trim_left : List ℕ → List ℕ
trim_left [] = []
trim_left (c ∷ cs) = let rest = trim_left cs in if is_space c then rest else c ∷ cs

-- The spaces at the end go; `trim_right cs` is empty when `cs` is all spaces.
unfoldable pub trim_right : List ℕ → List ℕ
trim_right [] = []
trim_right (c ∷ cs) = elim (trim_right cs) [
  | [] ↦ if is_space c then [] else c ∷ []
  | d ∷ ds ↦ c ∷ d ∷ ds
]

-- strings.TrimSpace
unfoldable pub trim_space : List ℕ → List ℕ
trim_space cs = trim_right (trim_left cs)

unfoldable pub int_value : JsonValue → Option ℤ
int_value (number s) = parse_int (codes s)
int_value (text s) = parse_int (trim_space (codes s))
int_value (real v) = v
int_value other = none

-- `CodexIntField`
unfoldable pub codex_int_field : Usage → String → Option ℤ
codex_int_field usage name = elim (lookup name usage) [ none ↦ none | some v ↦ int_value v ]

unfoldable pub is_invalid_value : Option JsonValue → Bool
is_invalid_value none = false
is_invalid_value (some v) = elim (int_value v) [ none ↦ true | some i ↦ false ]

-- `hasInvalidCodexToken`
unfoldable pub has_invalid_codex_token : Usage → List String → Bool
has_invalid_codex_token usage [] = false
has_invalid_codex_token usage (name ∷ names) =
    is_invalid_value (lookup name usage) || has_invalid_codex_token usage names
