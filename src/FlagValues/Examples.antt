-- ===== src/FlagValues/Examples.antt =====
-- Two harnesses, once with blanks and an empty item.
use tokeninsights.Prelude.{codes, [], ◌∷◌, ◌≡◌, refl}
use tokeninsights.Publication.Text.{is_space}
use tokeninsights.Processor.Json.{trim_left, trim_right, trim_space}
use tokeninsights.FlagValues.{split_at_commas, trimmed_items, set, join}
use tokeninsights.Prelude.Results.{err}
use tokeninsights.FlagValues.Harnesses.{
  harness_choices, listed, harnesses, parse_harness, one_among, same_codes,
}
use tokeninsights.FlagValues.Kept.{has_comma, IsItem, set-join}

read : set (codes " pi,, codex") [] ≡ codes "pi" ∷ codes "codex" ∷ []
unfolding set split_at_commas trimmed_items trim_space trim_left trim_right is_space
read = refl

pi-IsItem : IsItem (codes "pi")
unfolding has_comma trim_space trim_left trim_right is_space
pi-IsItem = record { whole = refl; trimmed = refl; given = refl }

codex-IsItem : IsItem (codes "codex")
unfolding has_comma trim_space trim_left trim_right is_space
codex-IsItem = record { whole = refl; trimmed = refl; given = refl }

set-join_example :
    set (join (codes "pi" ∷ codes "codex" ∷ [])) (codes "codex" ∷ [])
    ≡ codes "codex" ∷ codes "pi" ∷ codes "codex" ∷ []
set-join_example =
    set-join (codes "codex" ∷ []) (codes "pi") (codes "codex" ∷ []) pi-IsItem (codex-IsItem, tt)

choices : harness_choices ≡ codes "opencode, pi, codex, or claude-code"
unfolding harness_choices listed
choices = refl

refused : harnesses (codes "pi" ∷ codes "cursor" ∷ []) ≡ err (codes "cursor")
unfolding harnesses parse_harness one_among same_codes
refused = refl
