-- ===== src/FlagValues/Harnesses.antt =====
-- packages/core/flagvalue/flagvalue.go and packages/core/capture/types.go: the harnesses that a flag names. The error
-- is represented by the value that it quotes.
use tokeninsights.Prelude.{
  ℕ, codes, Bool, true, false, ◌&&◌, List, [], ◌∷◌, ◌++◌, Option, none, some, ◌≡◌, refl, ◌==◌,
  nat_eq, if◌then◌else◌, Bool-cases, inl, inr,
}
use tokeninsights.Prelude.Results.{Result, err, ok}

-- SupportedHarnesses
abbrev pub supported_harnesses : List (List ℕ)
supported_harnesses = codes "opencode" ∷ codes "pi" ∷ codes "codex" ∷ codes "claude-code" ∷ []

unfoldable pub same_codes : List ℕ → List ℕ → Bool
same_codes [] [] = true
same_codes (c ∷ cs) (d ∷ ds) = c == d && same_codes cs ds
same_codes _ _ = false

unfoldable pub one_among : List (List ℕ) → List ℕ → Bool
one_among [] value = false
one_among (name ∷ names) value =
    let later = one_among names value in if same_codes name value then true else later

-- `ParseHarness`
unfoldable pub parse_harness : List ℕ → Option (List ℕ)
parse_harness value = if one_among supported_harnesses value then some value else none

-- The names before the last, with commas between them, and the last.
unfoldable pub listed : List (List ℕ) → List ℕ
listed [] = []
listed (last ∷ []) = codes ", or " ++ last
listed (one ∷ last ∷ []) = one ++ (codes ", or " ++ last)
listed (one ∷ two ∷ three ∷ names) = one ++ (codes ", " ++ listed (two ∷ three ∷ names))

-- `HarnessChoices`
unfoldable pub harness_choices : List ℕ
harness_choices = listed supported_harnesses

abbrev pub selected :
    List ℕ → Option (List ℕ) → Result (List ℕ) (List (List ℕ)) → Result (List ℕ) (List (List ℕ))
selected value none rest = err value
selected value (some harness) (err why) = err why
selected value (some harness) (ok more) = ok (harness ∷ more)

-- `Harnesses`
unfoldable pub harnesses : List (List ℕ) → Result (List ℕ) (List (List ℕ))
harnesses [] = ok []
harnesses (value ∷ values) = selected value (parse_harness value) (harnesses values)

-- The first value that names no harness.
unfoldable pub unsupported : List (List ℕ) → Option (List ℕ)
unsupported [] = none
unsupported (value ∷ values) =
    let later = unsupported values in
    if one_among supported_harnesses value then later else some value

abbrev pub answer_for : List (List ℕ) → Option (List ℕ) → Result (List ℕ) (List (List ℕ))
answer_for values none = ok values
answer_for values (some value) = err value

selected-answer_for :
    (value : List ℕ) (values : List (List ℕ)) (wrong : Option (List ℕ))
    → selected value (some value) (answer_for values wrong) ≡ answer_for (value ∷ values) wrong
selected-answer_for value values none = refl
selected-answer_for value values (some w) = refl

-- `Harnesses` gives the values themselves, in their order, if each names a harness, and otherwise quotes the first that
-- does not.
pub harnesses-unsupported :
    (values : List (List ℕ)) → harnesses values ≡ answer_for values (unsupported values)
unfolding harnesses unsupported parse_harness
harnesses-unsupported [] = refl
harnesses-unsupported (value ∷ values) = elim (Bool-cases (one_among supported_harnesses value)) [
  | inl known ↦
      rw (known, harnesses-unsupported values)
        (selected-answer_for value values (unsupported values))
  | inr other ↦ rw other refl
]
