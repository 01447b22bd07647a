-- ===== src/Application/Normalize/Accepted.antt =====
-- Which queries `NormalizeQuery` accepts, and what becomes of their fields.
use tokeninsights.Prelude.{
  String, ◌≡◌, refl, sym, subst, ◌↔◌, Bool, true, false, not, ◌||◌, List, ◌==◌, string_eq, inl, inr,
  Bool-cases, arith, eq_iff, ◌⊎◌,
}
use tokeninsights.Prelude.Int.{ℤ, pos, int_eq, ◌≤ℤ◌}
use tokeninsights.Prelude.Results.{ok}
use tokeninsights.Application.Selection.{validate_selection, is_one_of}
use tokeninsights.Application.Normalize.{
  Query, default_page_size, max_page_size, or_default, or_default_ℤ, qualities, tabs, groups,
  directions, allowed_sorts, default_sort, default_direction, fill_selection, fill_group,
  fill_query, has_location, normalize_query,
}
use tokeninsights.Application.Normalize.Normal.{
  IsChecked, IsChecked-check_query, normalize_query-IsChecked,
}

-- A text that is not given, or one of the names.
abbrev pub IsGiven : List String → String → Type 0
IsGiven names x = (x ≡ "") ⊎ (is_one_of names x ≡ true)

-- The tab and the sort that a query asks for, be it by default.
abbrev pub tab_of : Query → String
tab_of q = or_default "tokens" q.tab

abbrev pub sort_of : Query → String
sort_of q = or_default (default_sort (tab_of q)) q.sort

-- Every field that is given is one that the query may have.
pub record IsAcceptable (q : Query) : Type 0 where
  pub quality : IsGiven qualities q.quality
  pub selection : validate_selection (fill_selection q.selection) ≡ ok tt
  pub tab : IsGiven tabs q.tab
  pub location : (q.tab ≡ "repo") ⊎ (has_location q ≡ false)
  pub group : IsGiven groups q.location_group
  pub sort : IsGiven (allowed_sorts (tab_of q)) q.sort
  pub direction : IsGiven directions q.direction
  pub page : (q.page ≡ pos 0) ⊎ (pos 1 ≤ℤ q.page)
  pub page_size : (q.page_size ≡ pos 0) ⊎ ((pos 1 ≤ℤ q.page_size) × (q.page_size ≤ℤ max_page_size))

not-eq-true : (b : Bool) → not b ≡ true → b ≡ false
not-eq-true true h = cc
not-eq-true false h = refl

apart : true ≡ false → ⊥
apart h = cc

abbrev Chosen : List String → String → String → Type 0
Chosen names default x = (is_one_of names (or_default default x) ≡ true) ↔ IsGiven names x

IsGiven-or_default :
    (names : List String) (default x : String)
    → is_one_of names default ≡ true
    → Chosen names default x
IsGiven-or_default names default x h = elim (Bool-cases (x == "")) [
  | inl e ↦ rw e ((λ _. inl ((eq_iff x "").0 e), λ _. h))
  | inr e ↦
      rw e ((λ k. inr k, λ g. elim g [ inl empty ↦ cc (e, (eq_iff x "").1 empty) | inr k ↦ k ]))
]

allowed_sorts-default_sort :
    (tab : String) → is_one_of (allowed_sorts tab) (default_sort tab) ≡ true
unfolding allowed_sorts default_sort is_one_of
allowed_sorts-default_sort tab = elim (Bool-cases (tab == "context")) [
  | inl e ↦ rw e
  | inr e ↦
      rw e
        (elim (Bool-cases (tab == "tokens" || tab == "sessions")) [ inl f ↦ rw f | inr f ↦ rw f ])
]

directions-default_direction :
    (sort : String) → is_one_of directions (default_direction sort) ≡ true
unfolding default_direction is_one_of
directions-default_direction sort =
    elim (Bool-cases
      (sort == "name" || sort == "harness" || sort == "provider" || sort == "model")) [
        | inl e ↦ rw e
        | inr e ↦ rw e
      ]

tab_of-repo : (tab : String) → (or_default "tokens" tab == "repo") ≡ (tab == "repo")
tab_of-repo tab = elim (Bool-cases (tab == "")) [ inl e ↦ rw ((eq_iff tab "").0 e) | inr e ↦ rw e ]

location_lem :
    (q : Query)
    → ((tab_of q == "repo") || not (has_location (fill_query q)) ≡ true)
      ↔ ((q.tab ≡ "repo") ⊎ (has_location q ≡ false))
unfolding has_location fill_query fill_group
location_lem q = rw (tab_of-repo q.tab) (elim (Bool-cases (q.tab == "repo")) [
  | inl e ↦ rw e ((λ _. inl ((eq_iff q.tab "repo").0 e), λ _. refl))
  | inr e ↦ rw e (
      (
        λ h. inr (not-eq-true _ h),
        λ h. elim h [
          | inl r ↦ absurd (apart (cc (e, (eq_iff q.tab "repo").1 r)))
          | inr none' ↦ rw none'
        ],
      ))
])

empty_or_named :
    (names : List String) (x : String) → ((x == "") || is_one_of names x ≡ true) ↔ IsGiven names x
empty_or_named names x = ground (arith, eq_iff x "")

repo_group_lem :
    (x : String)
    → ((or_default "repository" x == "") || is_one_of groups (or_default "repository" x) ≡ true)
      ↔ IsGiven groups x
repo_group_lem x = elim (Bool-cases (x == "")) [
  | inl e ↦ rw e ((λ _. inl ((eq_iff x "").0 e), λ _. unfold is_one_of in refl))
  | inr e ↦ rw e (empty_or_named groups x)
]

group_lem :
    (tab x : String)
    → ((fill_group tab x == "") || is_one_of groups (fill_group tab x) ≡ true) ↔ IsGiven groups x
unfolding fill_group
group_lem tab x = elim (Bool-cases (tab == "repo")) [
  | inl e ↦ rw e (repo_group_lem x)
  | inr e ↦ rw e (empty_or_named groups x)
]

page_lem : (n : ℤ) → (pos 1 ≤ℤ or_default_ℤ (pos 1) n) ↔ ((n ≡ pos 0) ⊎ (pos 1 ≤ℤ n))
page_lem n = ground arith

page_size_lem :
    (n : ℤ)
    → ((pos 1 ≤ℤ or_default_ℤ default_page_size n)
        × (or_default_ℤ default_page_size n ≤ℤ max_page_size))
      ↔ ((n ≡ pos 0) ⊎ ((pos 1 ≤ℤ n) × (n ≤ℤ max_page_size)))
page_size_lem n = ground arith

IsAcceptable-fill_query : (q : Query) → IsChecked (fill_query q) ↔ IsAcceptable q
IsAcceptable-fill_query q =
    unfold fill_query in
    (
      λ c. record {
        quality = quality.0 c.quality;
        selection = c.selection;
        tab = tab.0 c.tab;
        location = (location_lem q).0 c.location;
        group = (group_lem (tab_of q) q.location_group).0 c.group;
        sort = sort.0 c.sort;
        direction = direction.0 c.direction;
        page = (page_lem q.page).0 c.page;
        page_size = (page_size_lem q.page_size).0 c.page_size;
      },
      λ a. record {
        quality = quality.1 a.quality;
        selection = a.selection;
        tab = tab.1 a.tab;
        location = (location_lem q).1 a.location;
        group = (group_lem (tab_of q) q.location_group).1 a.group;
        sort = sort.1 a.sort;
        direction = direction.1 a.direction;
        page = (page_lem q.page).1 a.page;
        page_size = (page_size_lem q.page_size).1 a.page_size;
      },
    )
  where
    quality : Chosen qualities "confirmed" q.quality
    quality = IsGiven-or_default qualities "confirmed" q.quality (unfold is_one_of in refl)

    tab : Chosen tabs "tokens" q.tab
    tab = IsGiven-or_default tabs "tokens" q.tab (unfold is_one_of in refl)

    sort : Chosen (allowed_sorts (tab_of q)) (default_sort (tab_of q)) q.sort
    sort =
        IsGiven-or_default (allowed_sorts (tab_of q)) (default_sort (tab_of q)) q.sort
          (allowed_sorts-default_sort (tab_of q))

    direction : Chosen directions (default_direction (sort_of q)) q.direction
    direction =
        IsGiven-or_default directions (default_direction (sort_of q)) q.direction
          (directions-default_direction (sort_of q))

-- `NormalizeQuery` answers with a query exactly if every field that is given is one that the query may
-- have, and the answer is the query with its defaults: no default is refused, and nothing else is
-- changed.
pub normalize_query-IsAcceptable :
    (q answer : Query)
    → (normalize_query q ≡ ok answer) ↔ (IsAcceptable q × (answer ≡ fill_query q))
unfolding normalize_query
normalize_query-IsAcceptable q answer = (
  λ h.
      let (same, checked) = normalize_query-IsChecked q answer h in
      ((IsAcceptable-fill_query q).0 (subst IsChecked same checked), same),
  λ (a, same).
      subst (λ n. normalize_query q ≡ ok n) (sym same)
        (rw (IsChecked-check_query (fill_query q) ((IsAcceptable-fill_query q).1 a))),
)
