-- ===== src/Processor/Messages/Reasoning.antt =====
-- What the sum of the counts of a message is when the reasoning is told apart from the output (pi.go, claude.go).
use tokeninsights.Prelude.{
  String, Bool, List, [], ◌∷◌, Option, none, some, ◌≡◌, ◌⊎◌, refl, sym, ap, subst, ◌∙◌, arith, All,
  Bool-cases, inl, inr,
}
use tokeninsights.Prelude.Int.{ℤ, pos, ◌+ℤ◌, ◌-ℤ◌, ◌≤ℤ◌, ltb_ℤ, +ℤ_parts, -ℤ_parts, eq_of_parts}
use tokeninsights.Processor.Json.{max_int64}
use tokeninsights.Processor.Tokens.{int_pointer_value}
use tokeninsights.Processor.Tokens.Sums.{IsNatural, plain_total}
use tokeninsights.Processor.Tokens.Counts.{plain_total-cons}
use tokeninsights.Processor.Messages.{TokenCounts, split_reasoning, split_by, components_of}

abbrev pub amount : TokenCounts → ℤ
amount c = plain_total (components_of c)

-- Nothing is negative, the sum fits in `int64`, and a total is the sum.
pub record IsCounted (c : TokenCounts) : Type 0 where
  pub natural : All IsNatural (components_of c)
  pub fits : amount c ≤ℤ pos max_int64
  pub total : (c.total ≡ none) ⊎ (c.total ≡ some (amount c))

-- The components where the output includes the reasoning.
abbrev pub inclusive_parts : TokenCounts → List (Option ℤ)
inclusive_parts c = c.input ∷ c.output ∷ c.cache_read ∷ c.cache_write ∷ []

-- The same, of counts whose output includes the reasoning.
pub record IsInclusive (c : TokenCounts) : Type 0 where
  pub natural : All IsNatural (inclusive_parts c)
  pub reasoned : IsNatural c.reasoning
  pub fits : plain_total (inclusive_parts c) ≤ℤ pos max_int64
  pub total : (c.total ≡ none) ⊎ (c.total ≡ some (plain_total (inclusive_parts c)))

-- The sum of four values, and of five.
pub four_lem :
    (a b c d : Option ℤ)
    → plain_total (a ∷ b ∷ c ∷ d ∷ [])
      ≡ int_pointer_value a
        +ℤ (int_pointer_value b +ℤ (int_pointer_value c +ℤ (int_pointer_value d +ℤ pos 0)))
four_lem a b c d = cc (
  plain_total-cons a (b ∷ c ∷ d ∷ []),
  plain_total-cons b (c ∷ d ∷ []),
  plain_total-cons c (d ∷ []),
  plain_total-cons d [],
)

pub five_lem :
    (a b c d e : Option ℤ)
    → plain_total (a ∷ b ∷ c ∷ d ∷ e ∷ [])
      ≡ int_pointer_value a +ℤ (int_pointer_value b +ℤ plain_total (c ∷ d ∷ e ∷ []))
five_lem a b c d e =
    cc (plain_total-cons a (b ∷ c ∷ d ∷ e ∷ []), plain_total-cons b (c ∷ d ∷ e ∷ []))

pub four_split_lem :
    (a b c d : Option ℤ)
    → plain_total (a ∷ b ∷ c ∷ d ∷ [])
      ≡ int_pointer_value a +ℤ (int_pointer_value b +ℤ plain_total (c ∷ d ∷ []))
four_split_lem a b c d = cc (plain_total-cons a (b ∷ c ∷ d ∷ []), plain_total-cons b (c ∷ d ∷ []))

-- The reasoning left out.
without_reasoning :
    (a b d e : Option ℤ)
    → plain_total (a ∷ b ∷ none ∷ d ∷ e ∷ []) ≡ plain_total (a ∷ b ∷ d ∷ e ∷ [])
without_reasoning a b d e = cc (five_lem a b none d e, four_split_lem a b d e)

-- The reasoning taken out of the output.
reasoning_moved :
    (a d e : Option ℤ) (o r : ℤ)
    → plain_total (a ∷ some (o -ℤ r) ∷ some r ∷ d ∷ e ∷ []) ≡ plain_total (a ∷ some o ∷ d ∷ e ∷ [])
unfolding int_pointer_value
reasoning_moved a d e o r =
    let rest = plain_total (d ∷ e ∷ []) in
    let inner : (o -ℤ r) +ℤ (r +ℤ rest) ≡ o +ℤ rest = eq_of_parts _ _ (
      omega
        (arith, +ℤ_parts (o -ℤ r) (r +ℤ rest), +ℤ_parts r rest, +ℤ_parts o rest, -ℤ_parts o r)) in
    cc (five_lem a (some (o -ℤ r)) (some r) d e, four_split_lem a (some o) d e, inner)

dropped : (c : TokenCounts) → IsInclusive c → IsCounted (record c { reasoning = none })
dropped c h =
    let same = without_reasoning c.input c.output c.cache_read c.cache_write in
    let (i, (o, (r, (w, _)))) = h.natural in
    record {
      natural = (i, (o, (tt, (r, (w, tt)))));
      fits = subst (λ s. s ≤ℤ pos max_int64) (sym same) h.fits;
      total = subst (λ s. (c.total ≡ none) ⊎ (c.total ≡ some s)) (sym same) h.total;
    }

told_apart :
    (c : TokenCounts) (o r : ℤ)
    → c.output ≡ some o
    → c.reasoning ≡ some r
    → ltb_ℤ o r ≡ Bool.false
    → IsInclusive c
    → IsCounted (record c { output = some (o -ℤ r) })
told_apart c o r is_o is_r within h =
    let (i, (_, (d, (w, _)))) = h.natural in
    let same : amount (record c { output = some (o -ℤ r) }) ≡ plain_total (inclusive_parts c) =
      subst
        (λ q.
          plain_total (c.input ∷ some (o -ℤ r) ∷ q ∷ c.cache_read ∷ c.cache_write ∷ [])
          ≡ plain_total (inclusive_parts c))
        (sym is_r)
        (reasoning_moved c.input c.cache_read c.cache_write o r
          ∙ ap (λ q. plain_total (c.input ∷ q ∷ c.cache_read ∷ c.cache_write ∷ [])) (sym is_o)) in
    record {
      natural = (i, (ground (arith, -ℤ_parts o r), (h.reasoned, (d, (w, tt)))));
      fits = subst (λ s. s ≤ℤ pos max_int64) (sym same) h.fits;
      total = subst (λ s. (c.total ≡ none) ⊎ (c.total ≡ some s)) (sym same) h.total;
    }

split_cases :
    (code : String) (c : TokenCounts) (output reasoning : Option ℤ)
    → c.output ≡ output
    → c.reasoning ≡ reasoning
    → IsInclusive c
    → IsCounted (split_by code c output reasoning).0
split_cases code c output none is_o is_r h = subst IsCounted (same_record c is_r) (dropped c h)
  where
    same_record : (c : TokenCounts) → c.reasoning ≡ none → record c { reasoning = none } ≡ c
    same_record c e = rw (sym e) refl
split_cases code c none (some r) is_o is_r h = dropped c h
split_cases code c (some o) (some r) is_o is_r h = elim (Bool-cases (ltb_ℤ o r)) [
  | inl more ↦ rw more (dropped c h)
  | inr within ↦ rw within (told_apart c o r is_o is_r within h)
]

-- The counts are as they should be once the reasoning is told apart.
pub split_reasoning-IsCounted :
    (code : String) (c : TokenCounts) → IsInclusive c → IsCounted (split_reasoning code c).0
unfolding split_reasoning
split_reasoning-IsCounted code c h = split_cases code c c.output c.reasoning refl refl h
