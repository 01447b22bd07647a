-- ===== src/FlagValues.antt =====
-- packages/core/flagvalue/flagvalue.go: values of flags that may be repeated or separated by commas. A text is a
-- list of code points.
pub mod Kept
pub mod Harnesses
mod Examples
use tokeninsights.Prelude.{ℕ, Bool, true, false, List, [], ◌∷◌, ◌++◌, ◌==◌, nat_eq, if◌then◌else◌}
use tokeninsights.Processor.Json.{trim_space}

-- strings.Split at commas; `item` is what was read of the first item, and an item follows every comma.
unfoldable pub split_at_commas : List ℕ → List ℕ → List (List ℕ)
split_at_commas item [] = item ∷ []
split_at_commas item (c ∷ rest) =
    let next = split_at_commas [] rest in
    let longer = split_at_commas (item ++ c ∷ []) rest in if c == b',' then item ∷ next else longer

abbrev pub is_blank : List ℕ → Bool
is_blank [] = true
is_blank (c ∷ cs) = false

unfoldable pub trimmed_items : List (List ℕ) → List (List ℕ)
trimmed_items [] = []
trimmed_items (item ∷ items) =
    let rest = trimmed_items items in
    if is_blank (trim_space item) then rest else trim_space item ∷ rest

-- `List.Set`
unfoldable pub set : List ℕ → List (List ℕ) → List (List ℕ)
set value values = values ++ trimmed_items (split_at_commas [] value)

-- `List.String`
unfoldable pub join : List (List ℕ) → List ℕ
join [] = []
join (v ∷ []) = v
join (v ∷ w ∷ vs) = v ++ b',' ∷ join (w ∷ vs)
