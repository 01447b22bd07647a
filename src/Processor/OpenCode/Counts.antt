-- ===== src/Processor/OpenCode/Counts.antt =====
-- The tokens of an OpenCode message that are accepted.
use tokeninsights.Prelude.{
  String, List, [], ◌∷◌, Option, none, some, ◌≡◌, refl, sym, subst, ◌∙◌, ap, arith, inl,
}
use tokeninsights.Prelude.Int.{ℤ, pos, ◌≤ℤ◌}
use tokeninsights.Prelude.Results.{Result, err, ok, ok_inj, ◌>>=◌, >>-eq-ok}
use tokeninsights.Processor.Json.{max_int64}
use tokeninsights.Processor.Tokens.{int_pointer_value}
use tokeninsights.Processor.Tokens.Counts.{plain_total-cons}
use tokeninsights.Processor.Tokens.Sums.{IsNatural, plain_total, token_component_sum_lem}
use tokeninsights.Processor.Messages.{TokenCounts}
use tokeninsights.Processor.Messages.Reasoning.{IsCounted, amount}
use tokeninsights.Processor.Pi.{given}
use tokeninsights.Processor.OpenCode.{
  OpencodeTokenData, opencode_tokens, opencode_cache_read, opencode_cache_write,
  opencode_token_total, clamp_opencode_tokens, default_zero, opencode_parts,
}

-- The counts that go into the fact.
abbrev pub opencode_counts : OpencodeTokenData → TokenCounts
opencode_counts t = record {
  input = t.input;
  output = t.output;
  reasoning = default_zero t.reasoning;
  cache_read = opencode_cache_read t;
  cache_write = opencode_cache_write t;
  total = none;
}

default_zero-IsNatural : (v : Option ℤ) → IsNatural v → IsNatural (default_zero v)
default_zero-IsNatural none h = omega arith
default_zero-IsNatural (some v) h = h

zero_value : (v : Option ℤ) → int_pointer_value (default_zero v) ≡ int_pointer_value v
unfolding int_pointer_value
zero_value none = refl
zero_value (some v) = refl

-- Reasoning that is not there counts like zero.
amount-opencode_counts :
    (t : OpencodeTokenData) → amount (opencode_counts t) ≡ plain_total (opencode_parts t)
amount-opencode_counts t =
    let rest = opencode_cache_read t ∷ opencode_cache_write t ∷ [] in
    cc (
      zero_value t.reasoning,
      plain_total-cons t.input (t.output ∷ t.reasoning ∷ rest),
      plain_total-cons t.output (t.reasoning ∷ rest),
      plain_total-cons t.reasoning rest,
      plain_total-cons t.input (t.output ∷ default_zero t.reasoning ∷ rest),
      plain_total-cons t.output (default_zero t.reasoning ∷ rest),
      plain_total-cons (default_zero t.reasoning) rest,
    )

summed-IsCounted :
    (t : OpencodeTokenData) (total : ℤ)
    → opencode_token_total t ≡ some total
    → IsCounted (opencode_counts t)
unfolding opencode_token_total
summed-IsCounted t total e =
    let (natural, exact, fits) = (token_component_sum_lem (opencode_parts t)).0 total e in
    let (i, (o, (r, rest))) = natural in
    record {
      natural = (i, (o, (default_zero-IsNatural t.reasoning r, rest)));
      fits = subst (λ s. s ≤ℤ pos max_int64) (exact ∙ sym (amount-opencode_counts t)) fits;
      total = inl refl;
    }

refused :
    (ds es : List String) (tokens : OpencodeTokenData)
    → ◌≡◌ {A = Result (List String) (OpencodeTokenData × List String)} (err ds) (ok (tokens, es))
    → ⊥
refused ds es tokens h = cc

last_step :
    (c tokens : OpencodeTokenData) (total : Option ℤ) (ds es : List String)
    → opencode_token_total c ≡ total
    → ◌>>=◌ {B = OpencodeTokenData × List String}
        (given ("opencode_sqlite_invalid_tokens" ∷ []) total)
        (λ sum. ok (c, ds))
      ≡ ok (tokens, es)
    → IsCounted (opencode_counts tokens)
last_step c tokens none ds es e h = absurd (refused _ es tokens h)
last_step c tokens (some total) ds es e h =
    subst (λ x. IsCounted (opencode_counts x)) (ap (λ x. x.0) (ok_inj (c, ds) (tokens, es) h))
      (summed-IsCounted c total e)

-- The tokens of a message that are accepted make counts without a negative one that add up within `int64`.
pub opencode_tokens-IsCounted :
    (there : Option OpencodeTokenData) (tokens : OpencodeTokenData) (diagnostics : List String)
    → opencode_tokens there ≡ ok (tokens, diagnostics)
    → IsCounted (opencode_counts tokens)
unfolding opencode_tokens
opencode_tokens-IsCounted none tokens diagnostics h = absurd (refused _ diagnostics tokens h)
opencode_tokens-IsCounted (some t) tokens diagnostics h =
    let (_, more) = >>-eq-ok _ _ h in
    last_step (clamp_opencode_tokens t) tokens (opencode_token_total (clamp_opencode_tokens t)) _
      diagnostics refl more
