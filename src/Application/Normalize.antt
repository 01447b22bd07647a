-- ===== src/Application/Normalize.antt =====
-- packages/core/application/validation.go: `NormalizeQuery`. The query that it returns beside an
-- error is left out, since its callers drop it.
pub mod Normal
pub mod Accepted
use tokeninsights.Prelude.{
  String, Bool, true, false, not, ◌&&◌, ◌||◌, List, [], ◌∷◌, ◌++◌, ◌==◌, string_eq, one_of,
  if◌then◌else◌,
}
use tokeninsights.Prelude.Int.{ℤ, pos, ltb_ℤ, int_eq}
use tokeninsights.Prelude.Results.{Result, ok, err, ◌>>=◌, ◌>>◌, guard}
use tokeninsights.Application.Selection.{Selection, SelectionError, is_one_of, validate_selection}

pub record Query : Type 0 where
  pub quality : String
  pub selection : Selection
  pub tab : String
  pub location_group : String
  pub repository_keys : List String
  pub directory_keys : List String
  pub sort : String
  pub direction : String
  pub page : ℤ
  pub page_size : ℤ

-- The messages of an `InvalidRequest`.
pub data InvalidRequest : Type 0 where
  bad_quality bad_tab needs_repo_tab bad_group bad_direction : InvalidRequest
  bad_page bad_page_size too_large_page bad_row_limit : InvalidRequest
  bad_selection : SelectionError → InvalidRequest
  bad_sort : String → InvalidRequest

abbrev pub default_page_size : ℤ
default_page_size = pos 50

abbrev pub max_page_size : ℤ
max_page_size = pos 200

-- A text that is not given is empty.
abbrev pub or_default : String → String → String
or_default default value = if value == "" then default else value

abbrev pub qualities : List String
qualities = "confirmed" ∷ "estimated" ∷ []

abbrev pub tabs : List String
tabs = "tokens" ∷ "models" ∷ "providers" ∷ "harnesses" ∷ "sessions" ∷ "context" ∷ "repo" ∷ []

abbrev pub groups : List String
groups = "repository" ∷ "directory" ∷ []

abbrev pub directions : List String
directions = "asc" ∷ "desc" ∷ []

-- The map `allowed` of a tab.
unfoldable pub allowed_sorts : String → List String
allowed_sorts tab =
    if tab == "context"
    then "averageContext" ∷ "medianContext" ∷ "maxContext" ∷ "sessions" ∷ "harness" ∷ "provider"
      ∷ "model" ∷ []
    else ("name" ∷ "date" ∷ "total" ∷ "input" ∷ "output" ∷ "reasoning" ∷ "cacheRead" ∷ "cacheWrite"
        ∷ "sessions" ∷ "context" ∷ [])
      ++ (if tab == "repo" then "harness" ∷ "provider" ∷ "model" ∷ [] else [])

unfoldable pub default_sort : String → String
default_sort tab =
    if tab == "context"
    then "averageContext"
    else if tab == "tokens" || tab == "sessions"
    then "date"
    else "total"

unfoldable pub default_direction : String → String
default_direction sort =
    if sort == "name" || sort == "harness" || sort == "provider" || sort == "model"
    then "asc"
    else "desc"

abbrev pub or_default_ℤ : ℤ → ℤ → ℤ
or_default_ℤ default n = if n == pos 0 then default else n

unfoldable pub fill_selection : Selection → Selection
fill_selection s = record s {
  period = or_default "month" s.period;
  bucket = or_default "day" s.bucket;
}

unfoldable pub fill_group : String → String → String
fill_group tab group = if tab == "repo" then or_default "repository" group else group

-- The query with the defaults of `NormalizeQuery`, which do not depend on its checks.
unfoldable pub fill_query : Query → Query
fill_query q =
    let tab = or_default "tokens" q.tab in
    let sort = or_default (default_sort tab) q.sort in
    record q {
      quality = or_default "confirmed" q.quality;
      selection = fill_selection q.selection;
      tab = tab;
      location_group = fill_group tab q.location_group;
      sort = sort;
      direction = or_default (default_direction sort) q.direction;
      page = or_default_ℤ (pos 1) q.page;
      page_size = or_default_ℤ default_page_size q.page_size;
    }

abbrev pub is_empty : List String → Bool
is_empty [] = true
is_empty (_ ∷ _) = false

-- Locations are options of the tab `repo` alone.
unfoldable pub has_location : Query → Bool
has_location q =
    not (q.location_group == "")
    || not (is_empty q.repository_keys)
    || not (is_empty q.directory_keys)

abbrev pub selection_checked : Result SelectionError (Unit {0}) → Result InvalidRequest (Unit {0})
selection_checked (ok _) = ok tt
selection_checked (err e) = err (bad_selection e)

-- The checks of `NormalizeQuery`, in their order, on the query with its defaults. The default of
-- the group is given on the tab `repo` only, where the first check of locations does not fail.
unfoldable pub check_query : Query → Result InvalidRequest (Unit {0})
check_query q = do
  guard (is_one_of qualities q.quality) bad_quality
  selection_checked (validate_selection q.selection)
  guard (is_one_of tabs q.tab) bad_tab
  guard ((q.tab == "repo") || not (has_location q)) needs_repo_tab
  guard ((q.location_group == "") || is_one_of groups q.location_group) bad_group
  guard (is_one_of (allowed_sorts q.tab) q.sort) (bad_sort q.tab)
  guard (is_one_of directions q.direction) bad_direction
  guard (not (ltb_ℤ q.page (pos 1))) bad_page
  guard (not (ltb_ℤ q.page_size (pos 1))) bad_page_size
  guard (not (ltb_ℤ max_page_size q.page_size)) too_large_page

unfoldable pub normalize_query : Query → Result InvalidRequest Query
normalize_query q = do check_query (fill_query q); ok (fill_query q)
