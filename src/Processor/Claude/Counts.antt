-- ===== src/Processor/Claude/Counts.antt =====
-- The counts that `finalizeClaudeCodeFact` accepts.
use tokeninsights.Prelude.{
  String, List, [], ◌∷◌, Option, none, some, ◌≡◌, ◌==◌, refl, sym, ap, subst, ◌∙◌, arith, All,
  Bool-cases, inl, inr,
}
use tokeninsights.Prelude.Int.{ℤ, pos, ◌≤ℤ◌, int_eq, eq_of_parts}
use tokeninsights.Prelude.Results.{Result, err, ok, ok_inj}
use tokeninsights.Processor.Json.{max_int64}
use tokeninsights.Processor.Tokens.{token_component_sum}
use tokeninsights.Processor.Tokens.Sums.{IsNatural, token_component_sum_lem}
use tokeninsights.Processor.Messages.{TokenCounts, components_of}
use tokeninsights.Processor.Messages.Reasoning.{IsCounted, amount}
use tokeninsights.Processor.Claude.{settle_claude, claude_summed, finalize_claude}

settled-IsCounted :
    (c : TokenCounts) (ds : List String) (total : Option ℤ)
    → c.total ≡ total
    → All IsNatural (components_of c)
    → amount c ≤ℤ pos max_int64
    → IsCounted (settle_claude c ds total (amount c)).0
settled-IsCounted c ds none is_total natural fits = record {
  natural = natural;
  fits = fits;
  total = inl is_total;
}
settled-IsCounted c ds (some t) is_total natural fits = elim (Bool-cases (t == amount c)) [
  | inl same ↦ rw same (record {
    natural = natural;
    fits = fits;
    total = inr (is_total ∙ ap some (eq_of_parts t _ (ground arith)));
  })
  | inr other ↦ rw other (record { natural = natural; fits = fits; total = inl refl })
]

claude_summed-IsCounted :
    (c result : TokenCounts) (ds es : List String) (sum : Option ℤ)
    → token_component_sum (components_of c) ≡ sum
    → claude_summed c ds sum ≡ ok (result, es)
    → IsCounted result
claude_summed-IsCounted c result ds es none is_sum e = absurd (apart e)
  where
    apart :
        ◌≡◌ {A = Result (List String) (TokenCounts × List String)}
          (err ("claude_code_jsonl_invalid_tokens" ∷ []))
          (ok (result, es))
        → ⊥
    apart e = cc
claude_summed-IsCounted c result ds es (some sum) is_sum e =
    let (natural, exact, fits) = (token_component_sum_lem (components_of c)).0 sum is_sum in
    subst IsCounted (ap (λ x. x.0) (ok_inj _ _ e)) (
      subst (λ s. IsCounted (settle_claude c ds c.total s).0) (sym exact)
        (settled-IsCounted c ds c.total refl natural (subst (λ s. s ≤ℤ pos max_int64) exact fits)))

-- Whatever the counts, those that `finalizeClaudeCodeFact` accepts have no negative one, add up within
-- `int64`, and their total, if there is one, is their sum.
pub finalize_claude-IsCounted :
    (raw counts : TokenCounts) (diagnostics : List String)
    → finalize_claude raw ≡ ok (counts, diagnostics)
    → IsCounted counts
unfolding finalize_claude
finalize_claude-IsCounted raw counts diagnostics h =
    claude_summed-IsCounted _ counts _ diagnostics _ refl h
