-- ===== src/FlagValues/Kept.antt =====
-- What `Set` reads of the text that `String` writes.
use tokeninsights.Prelude.{
  ℕ, Bool, true, false, List, [], ◌∷◌, ◌++◌, ◌≡◌, refl, sym, ap, ◌∙◌, All, Bool-cases, inl, inr,
  ◌==◌, nat_eq, if◌then◌else◌,
}
use tokeninsights.Processor.Json.{trim_space}
use tokeninsights.FlagValues.{split_at_commas, is_blank, trimmed_items, set, join}

unfoldable pub has_comma : List ℕ → Bool
has_comma [] = false
has_comma (c ∷ cs) = if c == b',' then true else has_comma cs

-- A value as `Set` stores them: no comma, nothing to trim, not empty.
pub record IsItem (v : List ℕ) : Type 0 where
  pub whole : has_comma v ≡ false
  pub trimmed : trim_space v ≡ v
  pub given : is_blank v ≡ false

append_assoc : (a b c : List ℕ) → (a ++ b) ++ c ≡ a ++ (b ++ c)
append_assoc [] b c = refl
append_assoc (x ∷ a) b c = ap (λ r. x ∷ r) (append_assoc a b c)

append_nil : (a : List ℕ) → a ++ [] ≡ a
append_nil [] = refl
append_nil (x ∷ a) = ap (λ r. x ∷ r) (append_nil a)

split_last : (item v : List ℕ) → has_comma v ≡ false → split_at_commas item v ≡ (item ++ v) ∷ []
unfolding split_at_commas has_comma
split_last item [] h = ap (λ r. r ∷ []) (sym (append_nil item))
split_last item (c ∷ v) h = elim (Bool-cases (c == b',')) [
  | inl comma ↦ absurd (apart (rw comma at h))
  | inr other ↦ rw other (
      split_last (item ++ c ∷ []) v (rw other at h)
      ∙ ap (λ r. r ∷ []) (append_assoc item (c ∷ []) v))
]
  where
    apart : true ≡ false → ⊥
    apart e = cc

split_first :
    (item v rest : List ℕ)
    → has_comma v ≡ false
    → split_at_commas item (v ++ b',' ∷ rest) ≡ (item ++ v) ∷ split_at_commas [] rest
unfolding split_at_commas has_comma
split_first item [] rest h = ap (λ r. r ∷ split_at_commas [] rest) (sym (append_nil item))
split_first item (c ∷ v) rest h = elim (Bool-cases (c == b',')) [
  | inl comma ↦ absurd (apart (rw comma at h))
  | inr other ↦ rw other (
      split_first (item ++ c ∷ []) v rest (rw other at h)
      ∙ ap (λ r. r ∷ split_at_commas [] rest) (append_assoc item (c ∷ []) v))
]
  where
    apart : true ≡ false → ⊥
    apart e = cc

trimmed_items_lem :
    (v : List ℕ) (items : List (List ℕ))
    → IsItem v
    → trimmed_items (v ∷ items) ≡ v ∷ trimmed_items items
unfolding trimmed_items
trimmed_items_lem v items h = rw (h.trimmed, h.given) refl

no_items : trimmed_items [] ≡ []
unfolding trimmed_items
no_items = refl

joined :
    (v : List ℕ) (vs : List (List ℕ))
    → IsItem v
    → All IsItem vs
    → trimmed_items (split_at_commas [] (join (v ∷ vs))) ≡ v ∷ vs
unfolding join
joined v [] h k =
    ap trimmed_items (split_last [] v h.whole) ∙ trimmed_items_lem v [] h ∙ ap (λ r. v ∷ r) no_items
joined v (w ∷ vs) h (p, k) =
    ap trimmed_items (split_first [] v (join (w ∷ vs)) h.whole)
    ∙ trimmed_items_lem v (split_at_commas [] (join (w ∷ vs))) h
    ∙ ap (λ r. v ∷ r) (joined w vs p k)

-- What `String` writes of a list of values, `Set` appends to any values as the same list, if there is a value and
-- each is as `Set` stores them.
pub set-join :
    (before : List (List ℕ)) (v : List ℕ) (vs : List (List ℕ))
    → IsItem v
    → All IsItem vs
    → set (join (v ∷ vs)) before ≡ before ++ v ∷ vs
unfolding set
set-join before v vs h k = ap (λ r. before ++ r) (joined v vs h k)
