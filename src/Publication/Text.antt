-- ===== src/Publication/Text.antt =====
-- validation.go: which texts are published. A text is a list of code points, so it is valid UTF-8.
use tokeninsights.Prelude.{
  codes, ℕ, ◌+◌, String, Bool, false, not, ◌&&◌, ◌||◌, List, [], ◌∷◌, leb, ltb, ◌==◌, nat_eq,
  if◌then◌else◌,
}
use tokeninsights.Publication.{max_string_bytes}

-- The bytes of a code point in UTF-8.
unfoldable pub utf8_size : ℕ → ℕ
utf8_size c = if ltb c 128 then 1 else if ltb c 2048 then 2 else if ltb c 65536 then 3 else 4

-- len(value)
unfoldable pub byte_length : List ℕ → ℕ
byte_length [] = 0
byte_length (c ∷ cs) = utf8_size c + byte_length cs

-- unicode.IsControl
unfoldable pub is_control : ℕ → Bool
is_control c = ltb c 32 || leb 127 c && ltb c 160

-- unicode.IsSpace
unfoldable pub is_space : ℕ → Bool
is_space c =
    leb 9 c && leb c 13
    || c == 32
    || c == 133
    || c == 160
    || c == 5760
    || leb 8192 c && leb c 8202
    || c == 8232
    || c == 8233
    || c == 8239
    || c == 8287
    || c == 12288

unfoldable pub any_of : (ℕ → Bool) → List ℕ → Bool
any_of p [] = false
any_of p (c ∷ cs) = p c || any_of p cs

unfoldable pub valid_string : String → Bool → Bool
valid_string value required =
    (not required || any_of (λ c. not (is_space c)) (codes value))
    && leb (byte_length (codes value)) max_string_bytes
    && not (any_of is_control (codes value))

-- strings.ContainsAny(value, `/\`)
unfoldable pub has_slash : String → Bool
has_slash value = any_of (λ c. c == b'/' || c == b'\\') (codes value)

unfoldable pub valid_location_label : String → Bool
valid_location_label value = valid_string value false && not (has_slash value)
