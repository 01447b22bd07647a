-- ===== src/Application/Examples.antt =====
-- Queries of a viewer, and a repository that answers with the page asked for.
use tokeninsights.Prelude.{
  String, ◌≡◌, refl, ◌↔◌, Bool, true, false, [], ◌∷◌, Option, none, some, arith, if◌then◌else◌,
}
use tokeninsights.Prelude.Int.{ℤ, pos, negsuc, ltb_ℤ, ◌≤ℤ◌}
use tokeninsights.Prelude.Results.{Result, ok, err}
use tokeninsights.CollectorProgress.Snapshot.{codes_lt}
use tokeninsights.ServerFeatures.{
  Policy, personal, is_known, has, first_unknown, check_dependencies, validate_policy,
}
use tokeninsights.Application.Selection.{
  Selection, from_after_to, bad_date, is_one_of, is_date_codes, is_date, is_after, check_harnesses,
  validate_selection,
}
use tokeninsights.Application.Selection.Dates.{is_after_lem}
use tokeninsights.Application.Normalize.{
  Query, bad_page, needs_repo_tab, allowed_sorts, default_sort, default_direction, fill_selection,
  fill_group, fill_query, has_location, check_query, normalize_query,
}
use tokeninsights.Application.Normalize.Normal.{normalize_query-IsChecked}
use tokeninsights.Application.Normalize.Accepted.{IsAcceptable, normalize_query-IsAcceptable}
use tokeninsights.Application.Viewer.{
  Repository, Usage, Queries, Failure, done, unavailable, FacetRequest, Facets, new_queries,
  with_presentation, clone_selection, describe, allows, check, query_failure, instance_of, usage,
  page_usage, all_usage, facets_of, status_of,
}
use tokeninsights.Application.Viewer.Answers.{IsAnswered, usage_lem, facets_lem}
use tokeninsights.Application.Viewer.Asked.{usage-same}

functions : Unit {0}
unfolding codes_lt is_one_of is_date_codes is_date is_after check_harnesses validate_selection
    allowed_sorts default_sort default_direction fill_selection fill_group fill_query has_location
    check_query normalize_query is_known has first_unknown check_dependencies validate_policy
    new_queries with_presentation clone_selection describe allows check query_failure instance_of
    usage page_usage all_usage facets_of status_of
functions = tt

abbrev blank : Selection
blank = record {
  period = "";
  bucket = "";
  from = "";
  to = "";
  providers = [];
  models = [];
  harnesses = [];
  sessions = [];
}

abbrev leap_day : Selection
leap_day = record {
  period = "month";
  bucket = "day";
  from = "2024-02-29";
  to = "2024-03-01";
  providers = [];
  models = [];
  harnesses = "pi" ∷ [];
  sessions = [];
}

abbrev zero_query : Query
zero_query = record {
  quality = "";
  selection = blank;
  tab = "";
  location_group = "";
  repository_keys = [];
  directory_keys = [];
  sort = "";
  direction = "";
  page = pos 0;
  page_size = pos 0;
}

abbrev full_query : Query
full_query = record {
  quality = "confirmed";
  selection = record blank { period = "month"; bucket = "day" };
  tab = "tokens";
  location_group = "";
  repository_keys = [];
  directory_keys = [];
  sort = "date";
  direction = "desc";
  page = pos 1;
  page_size = pos 50;
}

runs :
    (normalize_query zero_query ≡ ok full_query)
    × (normalize_query (record zero_query { page = negsuc 0 }) ≡ err bad_page)
    × (normalize_query (record zero_query { location_group = "directory" }) ≡ err needs_repo_tab)
    × (validate_selection (record leap_day { from = "2023-02-29" }) ≡ err (bad_date "2023-02-29"))
    × (validate_selection (record leap_day { to = "2023-03-01" }) ≡ err from_after_to)
unfolding functions
runs = (refl, refl, refl, refl, refl)

abbrev granted : Policy
granted = record { kind = personal; capabilities = "usage" ∷ "facets" ∷ [] }

abbrev queries : Queries
queries = record {
  policy = granted;
  instance_id = "i";
  hostname = "";
  defaults = blank;
  permissions = "read" ∷ [];
}

abbrev pages : Repository ℤ String String
pages = record {
  dashboard = λ q now. ok q.page;
  all_dashboard = λ q now limit. ok limit;
  facets = λ q search now. ok search;
  status = err "closed";
}

-- A repository that fails for the query that is not normalised.
abbrev picky : Repository ℤ String String
picky = record pages { dashboard = λ q now. if ltb_ℤ q.page (pos 1) then err "page" else ok q.page }

abbrev never : String → Bool
never e = false

abbrev asked : Result (Failure String String) (Usage ℤ)
asked = usage never pages queries none zero_query (pos 0) 0

calls :
    (asked ≡ ok (record { dashboard = pos 1; instance_id = "i" }))
    × (all_usage {ContextError = String} never pages queries none zero_query (pos 7) 0
        ≡ ok (record { dashboard = pos 7; instance_id = "i" }))
    × (status_of {ContextError = String} never pages queries none
        ≡ err (unavailable (some "closed")))
    × (usage {ContextError = String} never pages queries (some "gone") zero_query (pos 0) 0
        ≡ err (done "gone"))
unfolding functions
calls = (refl, refl, refl, refl)

is_after_example : is_after "2024-02-29" "2023-12-31" ≡ true
unfolding functions
is_after_example = is_after_lem "2024-02-29" "2023-12-31" refl refl

normalize_query-IsAcceptable_example :
    (normalize_query zero_query ≡ ok (fill_query zero_query))
    ↔ (IsAcceptable zero_query × (fill_query zero_query ≡ fill_query zero_query))
normalize_query-IsAcceptable_example =
    normalize_query-IsAcceptable zero_query (fill_query zero_query)

abbrev answer : Usage ℤ
answer = record { dashboard = pos 1; instance_id = "i" }

usage_example :
    ((page_usage {ContextError = String} never pages queries none zero_query 0 ≡ ok answer)
      ↔ IsAnswered {ContextError = String} queries none zero_query
          (pages.dashboard (fill_query zero_query) 0)
          answer)
    × ((all_usage {ContextError = String} never pages queries none zero_query (pos 2) 0 ≡ ok answer)
        ↔ ((pos 1 ≤ℤ pos 2)
            × IsAnswered {ContextError = String} queries none zero_query
                (pages.all_dashboard (fill_query zero_query) 0 (pos 2))
                answer))
usage_example = usage_lem never pages queries none zero_query (pos 2) 0 answer

abbrev facet_request : FacetRequest
facet_request = record { query = zero_query; search = "gpt" }

facets_example :
    (facets_of {ContextError = String} never pages queries none facet_request 0
      ≡ ok (record { choices = "gpt"; instance_id = "i" }))
    ↔ ((◌≡◌ {A = Option String} none none)
        × (validate_policy queries.policy ≡ none)
        × (allows queries "facets" ≡ true)
        × IsAcceptable zero_query
        × (choices : String) × (pages.facets (fill_query zero_query) "gpt" 0 ≡ ok choices)
        × (◌≡◌ {A = Facets String}
            (record { choices = "gpt"; instance_id = "i" })
            (record { choices = choices; instance_id = queries.instance_id })))
facets_example =
    facets_lem never pages queries none facet_request 0
      (record { choices = "gpt"; instance_id = "i" })

picky_page : (r : Query) → normalize_query r ≡ ok r → pages.dashboard r 0 ≡ picky.dashboard r 0
picky_page r h = ground (arith, (normalize_query-IsChecked r r h).1.page)

usage-same_example : asked ≡ usage never picky queries none zero_query (pos 0) 0
usage-same_example =
    usage-same never pages picky queries none zero_query (pos 0) 0 picky_page (λ r h. refl)
