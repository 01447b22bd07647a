-- ===== src/Processor/Pi/Counts.antt =====
-- The counts that `piTokensFromUsage` accepts.
use tokeninsights.Prelude.{
  String, true, List, [], ◌∷◌, ◌&&◌, Option, none, some, ◌≡◌, ◌==◌, refl, sym, ap, subst, ◌∙◌,
  arith, All, Bool-cases, Option-cases, inl, inr,
}
use tokeninsights.Prelude.Int.{
  ℤ, pos, ◌+ℤ◌, ◌-ℤ◌, ◌≤ℤ◌, leb_ℤ, ltb_ℤ, int_eq, +ℤ_parts, -ℤ_parts, eq_of_parts,
}
use tokeninsights.Prelude.Results.{Result, err, ok, ok_inj, >>-eq-ok}
use tokeninsights.Processor.Json.{max_int64}
use tokeninsights.Processor.Tokens.{clamp_token, token_component_sum, int_pointer_value}
use tokeninsights.Processor.Tokens.Sums.{IsNatural, plain_total, token_component_sum_lem}
use tokeninsights.Processor.Tokens.Counts.{plain_total-cons}
use tokeninsights.Processor.Native.{Fields}
use tokeninsights.Processor.Messages.{TokenCounts, clamp_tokens}
use tokeninsights.Processor.Messages.Reasoning.{
  IsCounted, IsInclusive, inclusive_parts, four_split_lem, split_reasoning-IsCounted,
}
use tokeninsights.Processor.Pi.{
  inclusive_of, inclusive_cache, settle_by, settle_total, pi_summed, pi_tokens, pi_counts,
}

-- How the cached tokens stand to the counts `c` and the total `t` of an old record.
record IsCached (c : TokenCounts) (t cache : ℤ) : Type 0 where
  i : ℤ
  is_input : c.input ≡ some i
  within : cache ≤ℤ i
  cached : cache ≡ plain_total (c.cache_read ∷ c.cache_write ∷ [])
  total : t ≡ plain_total (c.input ∷ c.output ∷ [])
  fits : t ≤ℤ pos max_int64

not_some : (cache : ℤ) → Option.none ≡ some cache → ⊥
not_some cache e = cc

some_injective : (a b : ℤ) → some a ≡ some b → a ≡ b
some_injective a b e = cc

-- What `inclusive_of` asks for.
inclusive_of_lem :
    (t cache : ℤ) (input summed inclusive : Option ℤ)
    → inclusive_of input t summed inclusive ≡ some cache
    → (i : ℤ) × (input ≡ some i) × (summed ≡ some cache) × (inclusive ≡ some t) × (cache ≤ℤ i)
inclusive_of_lem t cache none summed inclusive e = absurd (not_some cache e)
inclusive_of_lem t cache (some i) none inclusive e = absurd (not_some cache e)
inclusive_of_lem t cache (some i) (some s) none e = absurd (not_some cache e)
inclusive_of_lem t cache (some i) (some s) (some n) e =
    elim (Bool-cases (ltb_ℤ (pos 0) s && (leb_ℤ s i && t == n))) [
      | inl taken ↦
          let same : s ≡ cache = some_injective s cache (rw taken at e) in
          let (within, exact) = parts taken in
          (i, refl, ap some same, ap some (sym exact), subst (λ x. x ≤ℤ i) same within)
      | inr left ↦ absurd (not_some cache (rw left at e))
    ]
  where
    parts : (ltb_ℤ (pos 0) s && (leb_ℤ s i && t == n)) ≡ true → (s ≤ℤ i) × (t ≡ n)
    parts h = (ground arith, eq_of_parts t n (ground arith))

inclusive_cache-IsCached :
    (c : TokenCounts) (t cache : ℤ) → inclusive_cache c t ≡ some cache → IsCached c t cache
unfolding inclusive_cache
inclusive_cache-IsCached c t cache e =
    let (i, is_input, is_cache, is_total, within) = inclusive_of_lem t cache c.input _ _ e in
    let (_, cached, _) = (token_component_sum_lem _).0 cache is_cache in
    let (_, total, fits) = (token_component_sum_lem _).0 t is_total in
    record {
      i = i;
      is_input = is_input;
      within = within;
      cached = cached;
      total = total;
      fits = fits;
    }

taken_out : (i o rest : ℤ) → (i -ℤ rest) +ℤ (o +ℤ rest) ≡ i +ℤ (o +ℤ pos 0)
taken_out i o rest = eq_of_parts _ _ (
    omega (
      arith,
      +ℤ_parts (i -ℤ rest) (o +ℤ rest),
      +ℤ_parts o rest,
      -ℤ_parts i rest,
      +ℤ_parts i (o +ℤ pos 0),
      +ℤ_parts o (pos 0),
    ))

-- The sum once the cached tokens are taken out of the input.
inclusive_sum :
    (c : TokenCounts) (t cache : ℤ) (h : IsCached c t cache)
    → plain_total (some (h.i -ℤ cache) ∷ c.output ∷ c.cache_read ∷ c.cache_write ∷ []) ≡ t
unfolding int_pointer_value
inclusive_sum c t cache h =
    let rest = plain_total (c.cache_read ∷ c.cache_write ∷ []) in
    let o = int_pointer_value c.output in
    let whole : t ≡ h.i +ℤ (o +ℤ pos 0) =
      h.total
      ∙ ap (λ x. plain_total (x ∷ c.output ∷ [])) h.is_input
      ∙ ap (λ x. h.i +ℤ x) (plain_total-cons c.output []) in
    four_split_lem (some (h.i -ℤ cache)) c.output c.cache_read c.cache_write
    ∙ ap (λ x. (h.i -ℤ x) +ℤ (o +ℤ rest)) h.cached
    ∙ taken_out h.i o rest
    ∙ sym whole

shown : (i cache : ℤ) → int_pointer_value (some i) -ℤ cache ≡ i -ℤ cache
unfolding int_pointer_value
shown i cache = refl

settle_cached :
    (c : TokenCounts) (t cache : ℤ)
    → c.total ≡ some t
    → All IsNatural (inclusive_parts c)
    → IsNatural c.reasoning
    → IsCached c t cache
    → IsInclusive (settle_by c (some cache)).0
settle_cached c t cache is_t (_, kept) reasoned h =
    let taken : int_pointer_value c.input -ℤ cache ≡ h.i -ℤ cache =
      ap (λ x. int_pointer_value x -ℤ cache) h.is_input ∙ shown h.i cache in
    let made : TokenCounts = record c { input = some (h.i -ℤ cache) } in
    let same = inclusive_sum c t cache h in
    let done : IsInclusive made = record {
      natural = (natural, kept);
      reasoned = reasoned;
      fits = subst (λ s. s ≤ℤ pos max_int64) (sym same) h.fits;
      total = inr (is_t ∙ ap some (sym same));
    } in
    subst (λ x. IsInclusive (record c { input = some x })) (sym taken) done
  where
    natural : pos 0 ≤ℤ h.i -ℤ cache
    natural = omega (arith, -ℤ_parts h.i cache, h.within)

settle_other :
    (c : TokenCounts) (t : ℤ)
    → c.total ≡ some t
    → All IsNatural (inclusive_parts c)
    → IsNatural c.reasoning
    → plain_total (inclusive_parts c) ≤ℤ pos max_int64
    → IsInclusive (settle_by c (inclusive_cache c t)).0
settle_other c t is_t natural reasoned fits = elim (Option-cases (inclusive_cache c t)) [
  | inl other ↦
      rw other (record { natural = natural; reasoned = reasoned; fits = fits; total = inl refl })
  | inr (cache, found) ↦
      rw found
        (settle_cached c t cache is_t natural reasoned (inclusive_cache-IsCached c t cache found))
]

settle_total-IsInclusive :
    (c : TokenCounts) (total : Option ℤ)
    → c.total ≡ total
    → All IsNatural (inclusive_parts c)
    → IsNatural c.reasoning
    → plain_total (inclusive_parts c) ≤ℤ pos max_int64
    → IsInclusive (settle_total c total (plain_total (inclusive_parts c))).0
settle_total-IsInclusive c none is_total natural reasoned fits = record {
  natural = natural;
  reasoned = reasoned;
  fits = fits;
  total = inl is_total;
}
settle_total-IsInclusive c (some t) is_total natural reasoned fits =
    elim (Bool-cases (t == plain_total (inclusive_parts c))) [
      | inl same ↦ rw same (record {
        natural = natural;
        reasoned = reasoned;
        fits = fits;
        total = inr (is_total ∙ ap some (eq_of_parts t _ (ground arith)));
      })
      | inr other ↦ rw other (settle_other c t is_total natural reasoned fits)
    ]

pub clamp_token-IsNatural : (v : Option ℤ) → IsNatural (clamp_token v)
unfolding clamp_token
clamp_token-IsNatural none = tt
clamp_token-IsNatural (some v) = elim (Bool-cases (ltb_ℤ v (pos 0))) [
  | inl below ↦ rw below (omega arith)
  | inr above ↦ rw above (ground arith)
]

pi_summed_lem :
    (c result : TokenCounts) (ds es : List String) (sum : Option ℤ)
    → token_component_sum (inclusive_parts c) ≡ sum
    → IsNatural c.reasoning
    → pi_summed c ds sum ≡ ok (result, es)
    → IsCounted result
pi_summed_lem c result ds es none is_sum reasoned e = absurd (apart e)
  where
    apart :
        ◌≡◌ {A = Result (List String) (TokenCounts × List String)}
          (err ("pi_jsonl_invalid_tokens" ∷ []))
          (ok (result, es))
        → ⊥
    apart e = cc
pi_summed_lem c result ds es (some sum) is_sum reasoned e =
    let (natural, exact, fits) = (token_component_sum_lem (inclusive_parts c)).0 sum is_sum in
    let done =
      settle_total-IsInclusive c c.total refl natural reasoned
        (subst (λ s. s ≤ℤ pos max_int64) exact fits) in
    let shown : IsInclusive (settle_total c c.total sum).0 =
      subst (λ s. IsInclusive (settle_total c c.total s).0) (sym exact) done in
    subst IsCounted (ap (λ x. x.0) (ok_inj _ _ e))
      (split_reasoning-IsCounted "pi_jsonl_invalid_reasoning" (settle_total c c.total sum).0 shown)

-- What `piTokensFromUsage` returns has no negative count, its counts add up within `int64`, and its total,
-- if it has one, is their sum.
pub pi_tokens-IsCounted :
    (usage : Fields) (counts : TokenCounts) (diagnostics : List String)
    → pi_tokens usage ≡ ok (counts, diagnostics)
    → IsCounted counts
unfolding pi_tokens clamp_tokens
pi_tokens-IsCounted usage counts diagnostics h =
    let (_, more) = >>-eq-ok _ _ h in
    let (_, last) = >>-eq-ok _ _ more in
    pi_summed_lem (clamp_tokens (pi_counts usage)) counts _ diagnostics _ refl
      (clamp_token-IsNatural (pi_counts usage).reasoning) last
