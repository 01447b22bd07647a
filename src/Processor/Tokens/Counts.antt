-- ===== src/Processor/Tokens/Counts.antt =====
-- The counts that `codexTokensFromUsage` accepts.
use tokeninsights.Prelude.{
  Bool, String, List, [], ◌∷◌, Option, none, some, ◌≡◌, refl, sym, ap, subst, ◌∙◌, arith, All,
  Bool-cases, Option-cases, inl, inr,
}
use tokeninsights.Prelude.Int.{
  ℤ, pos, ◌+ℤ◌, ◌-ℤ◌, ◌≤ℤ◌, ltb_ℤ, +ℤ_parts, -ℤ_parts, +ℤ_assoc, +ℤ_zero, eq_of_parts, zero_+ℤ,
}
use tokeninsights.Processor.Json.{Usage, max_int64, has_invalid_codex_token}
use tokeninsights.Processor.Tokens.{
  CodexTokenCounts, refused, counted, clamp_token, clamp_counts, read_counts, split_output,
  split_input, count_summed, count_split, token_names, codex_tokens_from_usage, has_none,
  any_negative, token_component_sum, sum, int_pointer_value,
}
use tokeninsights.Processor.Tokens.Sums.{IsNatural, plain_total, token_component_sum_lem}

-- How the counts `c` stand to the clamped counts `raw` of the source: the output is told apart into
-- reasoning and the rest, the input into what came from the cache and the rest, of which there is
-- none where more came from the cache.
pub record IsSplit (raw c : CodexTokenCounts) : Type 0 where
  pub natural : All IsNatural (c.input ∷ c.output ∷ c.reasoning ∷ c.cache_read ∷ [])
  pub fits : sum c ≤ℤ pos max_int64
  pub same_reasoning : c.reasoning ≡ raw.reasoning
  pub same_cache : c.cache_read ≡ raw.cache_read
  pub same_total : c.total ≡ raw.total
  pub output :
      int_pointer_value c.output +ℤ int_pointer_value c.reasoning ≡ int_pointer_value raw.output
  pub input : c.input ≡ clamp_token (split_input raw.input raw.cache_read)

not_counted :
    (code : String) (c : CodexTokenCounts) (ds : List String) → refused code ≡ counted c ds → ⊥
not_counted code c ds e = cc

regroup : (a b c d : ℤ) → a +ℤ b +ℤ c +ℤ d ≡ a +ℤ (b +ℤ (c +ℤ (d +ℤ pos 0)))
regroup a b c d =
    +ℤ_assoc (a +ℤ b) c d ∙ +ℤ_assoc a b (c +ℤ d) ∙ ap (λ x. a +ℤ (b +ℤ (c +ℤ x))) (sym (+ℤ_zero d))

pub plain_total-cons :
    (v : Option ℤ) (vs : List (Option ℤ))
    → plain_total (v ∷ vs) ≡ int_pointer_value v +ℤ plain_total vs
unfolding int_pointer_value
plain_total-cons none vs = sym (zero_+ℤ (plain_total vs))
plain_total-cons (some v) vs = refl

option_injective : (a b : Option ℤ) → some a ≡ some b → a ≡ b
option_injective a b e = cc

not_some : (split : Option ℤ) → Option.none ≡ some split → ⊥
not_some split e = cc

counted_injective :
    (a b : CodexTokenCounts) (ds es : List String) → counted a ds ≡ counted b es → a ≡ b
counted_injective a b ds es e = cc

-- The sum of `lessThan` is the plain one.
sum-plain_total :
    (c : CodexTokenCounts)
    → sum c ≡ plain_total (c.input ∷ c.output ∷ c.reasoning ∷ c.cache_read ∷ [])
unfolding sum
sum-plain_total c = cc (
  regroup (int_pointer_value c.input) (int_pointer_value c.output) (int_pointer_value c.reasoning)
      (int_pointer_value c.cache_read),
  plain_total-cons c.input (c.output ∷ c.reasoning ∷ c.cache_read ∷ []),
  plain_total-cons c.output (c.reasoning ∷ c.cache_read ∷ []),
  plain_total-cons c.reasoning (c.cache_read ∷ []),
  plain_total-cons c.cache_read [],
)

split_output_sum :
    (output reasoning split : Option ℤ)
    → split_output output reasoning ≡ some split
    → int_pointer_value split +ℤ int_pointer_value reasoning ≡ int_pointer_value output
unfolding split_output int_pointer_value
split_output_sum output none split e =
    +ℤ_zero (int_pointer_value split) ∙ ap int_pointer_value (sym (option_injective output split e))
split_output_sum none (some r) split e = cc
split_output_sum (some o) (some r) split e = elim (Bool-cases (ltb_ℤ o r)) [
  | inl more ↦ absurd (not_some split (rw more at e))
  | inr within ↦
      subst (λ s. int_pointer_value s +ℤ r ≡ o)
        (option_injective (some (o -ℤ r)) split (rw within at e))
        (eq_of_parts _ _ (omega (arith, +ℤ_parts (o -ℤ r) r, -ℤ_parts o r)))
]

-- The counts that are accepted in the end are those that were summed.
count_summed_lem :
    (raw c : CodexTokenCounts) (clamped : Bool) (ds : List String)
    → count_summed raw clamped ≡ counted c ds
    → (c ≡ raw)
      × All IsNatural (c.input ∷ c.output ∷ c.reasoning ∷ c.cache_read ∷ [])
      × (sum c ≤ℤ pos max_int64)
unfolding count_summed
count_summed_lem raw c clamped ds e =
    elim (Option-cases
      (token_component_sum (raw.input ∷ raw.output ∷ raw.reasoning ∷ raw.cache_read ∷ []))) [
        | inl over ↦ absurd (not_counted _ c ds (rw (over, count_summed) at e))
        | inr (total, within) ↦
            let same = counted_injective raw c _ ds (rw (within, count_summed) at e) in
            let (natural, exact, fits) = (token_component_sum_lem _).0 total within in
            subst
              (λ x.
                (x ≡ raw)
                × All IsNatural (x.input ∷ x.output ∷ x.reasoning ∷ x.cache_read ∷ [])
                × (sum x ≤ℤ pos max_int64))
              same
              (
                refl,
                natural,
                subst (λ t. t ≤ℤ pos max_int64) (exact ∙ sym (sum-plain_total raw)) fits,
              )
      ]

count_split_lem :
    (raw c : CodexTokenCounts) (clamped : Bool) (ds : List String)
    → count_split raw clamped ≡ counted c ds
    → IsSplit raw c
unfolding count_split
count_split_lem raw c clamped ds e = elim (Option-cases (split_output raw.output raw.reasoning)) [
  | inl over ↦ absurd (not_counted _ c ds (rw (over, count_split) at e))
  | inr (output, within) ↦
      let summed : CodexTokenCounts = record raw {
        output = output;
        input = clamp_token (split_input raw.input raw.cache_read);
      } in
      let (same, natural, fits) = count_summed_lem summed c _ ds (rw (within, count_split) at e) in
      record {
        natural = natural;
        fits = fits;
        same_reasoning = ap (λ x. x.reasoning) same;
        same_cache = ap (λ x. x.cache_read) same;
        same_total = ap (λ x. x.total) same;
        output =
            ap (λ x. int_pointer_value x.output +ℤ int_pointer_value x.reasoning) same
            ∙ split_output_sum raw.output raw.reasoning output within;
        input = ap (λ x. x.input) same;
      }
]

-- What `codexTokensFromUsage` accepts are the clamped counts of the source, the output and the
-- input told apart; nothing is negative, and the sum that `lessThan` compares fits in `int64`.
pub codex_tokens-IsSplit :
    (usage : Usage) (c : CodexTokenCounts) (diagnostics : List String)
    → codex_tokens_from_usage usage ≡ counted c diagnostics
    → IsSplit (clamp_counts (read_counts usage)) c
unfolding codex_tokens_from_usage
codex_tokens-IsSplit usage c diagnostics e =
    let raw = read_counts usage in
    elim (Bool-cases (has_invalid_codex_token usage token_names)) [
      | inl bad ↦ absurd (not_counted _ c diagnostics (rw (bad, codex_tokens_from_usage) at e))
      | inr good ↦ elim (Bool-cases (has_none raw)) [
        | inl nothing ↦
            absurd (not_counted _ c diagnostics (rw (good, nothing, codex_tokens_from_usage) at e))
        | inr something ↦
            count_split_lem (clamp_counts raw) c (any_negative raw) diagnostics
              (rw (good, something, codex_tokens_from_usage) at e)
      ]
    ]
