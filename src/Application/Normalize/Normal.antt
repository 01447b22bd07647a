-- ===== src/Application/Normalize/Normal.antt =====
-- What `NormalizeQuery` returns.
use tokeninsights.Prelude.{
  String, ◌≡◌, refl, sym, true, false, not, ◌||◌, ◌==◌, string_eq, inl, inr, Bool-cases, arith, ◌⊎◌,
  subst,
}
use tokeninsights.Prelude.Int.{ℤ, pos, int_eq, ◌≤ℤ◌}
use tokeninsights.Prelude.Results.{Result, ok, err, >>=-then, ok_inj}
use tokeninsights.Application.Selection.{SelectionError, is_one_of, validate_selection}
use tokeninsights.Application.Normalize.{
  Query, InvalidRequest, max_page_size, or_default, or_default_ℤ, qualities, tabs, groups,
  directions, allowed_sorts, default_sort, default_direction, fill_selection, fill_group,
  fill_query, has_location, check_query, normalize_query, selection_checked,
}

selection_checked-cases :
    (v : Result SelectionError (Unit {0}))
    → (v ≡ ok tt) ⊎ ((e : InvalidRequest) × (selection_checked v ≡ err e))
selection_checked-cases (ok _) = inl refl
selection_checked-cases (err e) = inr (_, refl)

-- What the checks have tested of a query.
pub record IsChecked (q : Query) : Type 0 where
  pub quality : is_one_of qualities q.quality ≡ true
  pub selection : validate_selection q.selection ≡ ok tt
  pub tab : is_one_of tabs q.tab ≡ true
  pub location : (q.tab == "repo") || not (has_location q) ≡ true
  pub group : (q.location_group == "") || is_one_of groups q.location_group ≡ true
  pub sort : is_one_of (allowed_sorts q.tab) q.sort ≡ true
  pub direction : is_one_of directions q.direction ≡ true
  pub page : pos 1 ≤ℤ q.page
  pub page_size : (pos 1 ≤ℤ q.page_size) × (q.page_size ≤ℤ max_page_size)

pub check_query-IsChecked : (q : Query) → check_query q ≡ ok tt → IsChecked q
unfolding check_query
check_query-IsChecked q h = elim (selection_checked-cases (validate_selection q.selection)) [
  | inl valid ↦ ground (arith, h, valid)
  | inr (e, refused) ↦ ground (arith, h, refused)
]

pub IsChecked-check_query : (q : Query) → IsChecked q → check_query q ≡ ok tt
unfolding check_query
IsChecked-check_query q c = ground (
  arith, c.quality, c.selection, c.tab, c.location, c.group, c.sort, c.direction, c.page,
  c.page_size,
)

pub normalize_query-IsChecked :
    (q r : Query) → normalize_query q ≡ ok r → (r ≡ fill_query q) × IsChecked r
unfolding normalize_query
normalize_query-IsChecked q r h =
    >>=-then (check_query (fill_query q)) (λ _. ok (fill_query q)) h
      (λ _ e k.
        let same = ok_inj _ _ k in
        (sym same, subst IsChecked same (check_query-IsChecked (fill_query q) e)))

normalize_query_fixed : (r : Query) → fill_query r ≡ r → IsChecked r → normalize_query r ≡ ok r
unfolding normalize_query
normalize_query_fixed r e c = rw (e, IsChecked-check_query r c)

or_default_idem :
    (default x : String)
    → (default == "") ≡ false
    → or_default default (or_default default x) ≡ or_default default x
or_default_idem default x h = elim (Bool-cases (x == "")) [
  | inl e ↦ rw e (rw h)
  | inr e ↦ rw e (rw e)
]

or_default_ℤ_idem :
    (default n : ℤ) → or_default_ℤ default (or_default_ℤ default n) ≡ or_default_ℤ default n
or_default_ℤ_idem default n = elim (Bool-cases (n == pos 0)) [
  | inl e ↦ rw e (ground arith)
  | inr e ↦ rw e (rw e)
]

default_sort_given : (tab : String) → (default_sort tab == "") ≡ false
unfolding default_sort
default_sort_given tab = elim (Bool-cases (tab == "context")) [
  | inl e ↦ rw e
  | inr e ↦
      rw e
        (elim (Bool-cases (tab == "tokens" || tab == "sessions")) [ inl f ↦ rw f | inr f ↦ rw f ])
]

default_direction_given : (sort : String) → (default_direction sort == "") ≡ false
unfolding default_direction
default_direction_given sort =
    elim (Bool-cases
      (sort == "name" || sort == "harness" || sort == "provider" || sort == "model")) [
        | inl e ↦ rw e
        | inr e ↦ rw e
      ]

fill_group_idem :
    (tab group : String) → fill_group tab (fill_group tab group) ≡ fill_group tab group
unfolding fill_group
fill_group_idem tab group = elim (Bool-cases (tab == "repo")) [
  | inl e ↦ rw e (or_default_idem "repository" group refl)
  | inr e ↦ rw e
]

fill_query_idem : (q : Query) → fill_query (fill_query q) ≡ fill_query q
unfolding fill_query fill_selection
fill_query_idem q = simp (
  or_default_idem "confirmed" q.quality refl,
  or_default_idem "month" q.selection.period refl,
  or_default_idem "day" q.selection.bucket refl,
  or_default_idem "tokens" q.tab refl,
  fill_group_idem,
  or_default_idem (default_sort (or_default "tokens" q.tab)) q.sort (default_sort_given _),
  or_default_idem _ q.direction
      (default_direction_given (or_default (default_sort (or_default "tokens" q.tab)) q.sort)),
  or_default_ℤ_idem,
)

-- What `NormalizeQuery` returns it returns unchanged when it is given it again.
pub normalize_query_idem : (q r : Query) → normalize_query q ≡ ok r → normalize_query r ≡ ok r
normalize_query_idem q r h =
    let (filled, c) = normalize_query-IsChecked q r h in
    normalize_query_fixed r (subst (λ s. fill_query s ≡ s) (sym filled) (fill_query_idem q)) c
