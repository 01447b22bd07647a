-- ===== src/Application/Viewer/Asked.antt =====
-- Which queries the operations of a viewer put to the repository.
use tokeninsights.Prelude.{ℕ, ◌≡◌, refl, Bool, Option, inl, inr, Bool-cases, ◌⊎◌}
use tokeninsights.Prelude.Int.{ℤ, pos, ltb_ℤ}
use tokeninsights.Prelude.Results.{Result, ok, err}
use tokeninsights.Application.Normalize.{Query, normalize_query}
use tokeninsights.Application.Normalize.Normal.{normalize_query_idem}
use tokeninsights.Application.Viewer.{Repository, Queries, usage}

Result-cases {ℓ κ} :
    {E : Type ℓ} {A : Type κ} (r : Result E A) → ((a : A) × (r ≡ ok a)) ⊎ ((e : E) × (r ≡ err e))
Result-cases (ok a) = inl (a, refl)
Result-cases (err e) = inr (e, refl)

-- A repository is asked nothing but queries that `NormalizeQuery` leaves as they are: two that
-- answer those alike make `Usage` and `AllUsage` answer every request alike.
pub usage-same :
    {Dashboard FacetChoices ContextError SourceError : Type 0}
    (is_context_error : SourceError → Bool)
    (left right : Repository Dashboard FacetChoices SourceError) (q : Queries)
    (ctx : Option ContextError) (request : Query) (max_rows : ℤ) (now : ℕ)
    → ((r : Query) → normalize_query r ≡ ok r → left.dashboard r now ≡ right.dashboard r now)
    → ((r : Query)
        → normalize_query r ≡ ok r
        → left.all_dashboard r now max_rows ≡ right.all_dashboard r now max_rows)
    → usage is_context_error left q ctx request max_rows now
      ≡ usage is_context_error right q ctx request max_rows now
unfolding usage
usage-same is_context_error left right q ctx request max_rows now page all' =
    elim (Result-cases (normalize_query request)) [
      | inr (e, refused) ↦ rw refused
      | inl (r, accepted) ↦
          let normal = normalize_query_idem request r accepted in
          rw accepted (elim (Bool-cases (ltb_ℤ (pos 0) max_rows)) [
            | inl many ↦ rw many (rw (all' r normal))
            | inr one ↦ rw one (rw (page r normal))
          ])
    ]
