-- ===== src/Application/Viewer/Answers.antt =====
-- When the operations of a viewer answer, what they ask of the repository, and what they answer.
use tokeninsights.Prelude.{
  ℕ, String, ◌≡◌, refl, subst, ◌↔◌, Bool, true, Option, none, string_eq, if◌then◌else◌, arith,
  Bool-cases, inl, inr,
}
use tokeninsights.Prelude.Int.{ℤ, pos, ltb_ℤ, ◌≤ℤ◌}
use tokeninsights.Prelude.Results.{Result, ok, err, ◌>>=◌, ◌>>◌}
use tokeninsights.ServerFeatures.{validate_policy}
use tokeninsights.Application.Normalize.{Query, InvalidRequest, normalize_query, fill_query}
use tokeninsights.Application.Normalize.Accepted.{IsAcceptable, normalize_query-IsAcceptable}
use tokeninsights.Application.Viewer.{
  Repository, Usage, Queries, Failure, allows, answered, normalized, check, usage, page_usage,
  all_usage, facets_of, FacetRequest, Facets,
}

check-eq-ok :
    {ContextError SourceError : Type 0} (q : Queries) (ctx : Option ContextError)
    (capability : String)
    → (check {SourceError = SourceError} q ctx capability ≡ ok tt)
      ↔ ((ctx ≡ none) × (validate_policy q.policy ≡ none) × (allows q capability ≡ true))
unfolding check
check-eq-ok q ctx capability = ground arith

-- The request as the repository is asked it.
request_lem :
    (request : Query) (P : Query → Type 0)
    → ((r : Query) × (normalize_query request ≡ ok r) × P r)
      ↔ (IsAcceptable request × P (fill_query request))
request_lem request P = (
  λ (r, e, p).
      let (acceptable, same) = (normalize_query-IsAcceptable request r).0 e in
      (acceptable, subst P same p),
  λ (a, p). (
    fill_query request,
    (normalize_query-IsAcceptable request (fill_query request)).1 (a, refl),
    p,
  ),
)

-- What the answer of an operation of usage takes, if the repository is asked like this.
abbrev pub IsAnswered :
    {Dashboard ContextError SourceError : Type 0}
    → Queries
    → Option ContextError
    → Query
    → Result SourceError Dashboard
    → Usage Dashboard
    → Type 0
IsAnswered {Dashboard = Dashboard} q ctx request asked u =
    (ctx ≡ none)
    × (validate_policy q.policy ≡ none)
    × (allows q "usage" ≡ true)
    × IsAcceptable request
    × (answer : Dashboard) × (asked ≡ ok answer)
    × (u ≡ record { dashboard = answer; instance_id = q.instance_id })

module _ {Dashboard FacetChoices ContextError SourceError : Type 0}
    (is_context_error : SourceError → Bool)
    (source : Repository Dashboard FacetChoices SourceError) where
  module _ {A B : Type 0} (f : A → B) (u : B) where
    answered-eq-ok :
        (r : Result SourceError A)
        → (◌≡◌ {A = Result (Failure ContextError SourceError) B}
            (do answer ← answered is_context_error r; ok (f answer))
            (ok u))
          ↔ ((answer : A) × (r ≡ ok answer) × (u ≡ f answer))
    answered-eq-ok (ok a) = (λ h. (a, refl, cc), λ (a', e, k). cc)
    answered-eq-ok (err e) = (λ h. cc, λ (a', e', k). cc)

    chain-eq-ok :
        (m : Result (Failure ContextError SourceError) (Unit {0})) (n : Result InvalidRequest Query)
        (ask : Query → Result SourceError A)
        → ((do
          m
          normal ← normalized n
          answer ← answered is_context_error (ask normal)
          ok (f answer))
            ≡ ok u)
          ↔ ((m ≡ ok tt)
              × ((r : Query) × (n ≡ ok r) × (answer : A) × (ask r ≡ ok answer) × (u ≡ f answer)))
    chain-eq-ok (err e) n ask = (λ h. cc, λ h. cc (h.0))
    chain-eq-ok (ok _) (err e) ask = (λ h. cc, λ (_, (r, h, _, _, _)). cc)
    chain-eq-ok (ok _) (ok r) ask = (
      λ h. let (a, e, k) = (answered-eq-ok (ask r)).0 h in (refl, (r, refl, a, e, k)),
      λ (_, (r', e, a, k, l)). (answered-eq-ok (ask r)).1 (a, cc (e, k), l),
    )

    operation-eq-ok :
        (q : Queries) (ctx : Option ContextError) (capability : String) (request : Query)
        (ask : Query → Result SourceError A)
        → ((do
          check q ctx capability
          normal ← normalized (normalize_query request)
          answer ← answered is_context_error (ask normal)
          ok (f answer))
            ≡ ok u)
          ↔ ((ctx ≡ none)
              × (validate_policy q.policy ≡ none)
              × (allows q capability ≡ true)
              × IsAcceptable request
              × (answer : A) × (ask (fill_query request) ≡ ok answer)
              × (u ≡ f answer))
    operation-eq-ok q ctx capability request ask =
        let chain = chain-eq-ok (check q ctx capability) (normalize_query request) ask in
        let checked = check-eq-ok {SourceError = SourceError} q ctx capability in
        let asked =
          request_lem request (λ r. (answer : A) × (ask r ≡ ok answer) × (u ≡ f answer)) in
        (
          λ h.
              let (m, (r, n, a, e', k')) = chain.0 h in
              let (running, policy, allowed) = checked.0 m in
              let (acceptable, (answer, e, k)) = asked.0 (r, n, (a, e', k')) in
              (running, policy, allowed, acceptable, answer, e, k),
          λ (running, policy, allowed, acceptable, answer, e, k).
              let (r, n, (a, e', k')) = asked.1 (acceptable, (answer, e, k)) in
              chain.1 (checked.1 (running, policy, allowed), (r, n, a, e', k')),
        )

  usage-IsAnswered :
      (q : Queries) (ctx : Option ContextError) (request : Query) (max_rows : ℤ) (now : ℕ)
      (u : Usage Dashboard)
      → (usage is_context_error source q ctx request max_rows now ≡ ok u)
        ↔ IsAnswered q ctx request
            (if ltb_ℤ (pos 0) max_rows
              then source.all_dashboard (fill_query request) now max_rows
              else source.dashboard (fill_query request) now)
            u
  unfolding usage
  usage-IsAnswered q ctx request max_rows now u =
      operation-eq-ok (λ answer. record { dashboard = answer; instance_id = q.instance_id }) u q ctx
        "usage" request
        (λ normal.
          if ltb_ℤ (pos 0) max_rows
          then source.all_dashboard normal now max_rows
          else source.dashboard normal now)

  -- `Usage` and `AllUsage` answer exactly if the context is live, the policy is valid, reading
  -- and the capability are allowed, the request is acceptable, the number of rows that `AllUsage` is given
  -- is at least 1, and the repository answers the request with its defaults filled in; the answer is then the
  -- repository's, a page of it or all rows, under the id of the instance.
  pub usage_lem :
      (q : Queries) (ctx : Option ContextError) (request : Query) (max_rows : ℤ) (now : ℕ)
      (u : Usage Dashboard)
      → ((page_usage is_context_error source q ctx request now ≡ ok u)
          ↔ IsAnswered q ctx request (source.dashboard (fill_query request) now) u)
        × ((all_usage is_context_error source q ctx request max_rows now ≡ ok u) ↔ (
            (pos 1 ≤ℤ max_rows)
            × IsAnswered q ctx request (source.all_dashboard (fill_query request) now max_rows) u))
  unfolding page_usage all_usage
  usage_lem q ctx request max_rows now u = (
    usage-IsAnswered q ctx request (pos 0) now u,
    elim (Bool-cases (ltb_ℤ max_rows (pos 1))) [
      | inl few ↦ rw few (λ h. cc, λ (some', _). absurd (ground arith))
      | inr enough ↦
          let positive : ltb_ℤ (pos 0) max_rows ≡ true = ground arith in
          let both = usage-IsAnswered q ctx request max_rows now u in
          let (given, back) = (rw positive at both) in
          rw enough (λ h. (ground arith, given h), λ (_, a). back a)
    ],
  )

  pub facets_lem :
      (q : Queries) (ctx : Option ContextError) (request : FacetRequest) (now : ℕ)
      (u : Facets FacetChoices)
      → (facets_of is_context_error source q ctx request now ≡ ok u) ↔ (
          (ctx ≡ none)
          × (validate_policy q.policy ≡ none)
          × (allows q "facets" ≡ true)
          × IsAcceptable request.query
          × (choices : FacetChoices) × (source.facets (fill_query request.query) request.search now
              ≡ ok choices)
          × (u ≡ record { choices = choices; instance_id = q.instance_id }))
  unfolding facets_of
  facets_lem q ctx request now u =
      operation-eq-ok (λ choices. record { choices = choices; instance_id = q.instance_id }) u q ctx
        "facets" request.query (λ normal. source.facets normal request.search now)
