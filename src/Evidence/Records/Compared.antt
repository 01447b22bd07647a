-- ===== src/Evidence/Records/Compared.antt =====
-- That the comparison of decoded values (packages/core/evidence/codec.go) finds them the same.
use tokeninsights.Prelude.{
  ℕ, String, Bool, true, false, not, ◌&&◌, ◌||◌, Option, none, some, is_none, ◌==◌, nat_eq,
  string_eq, ◌≡◌, inl, inr, refl, subst, arith, eq_iff, Bool-cases, Option-cases, ◌∙◌,
}
use tokeninsights.Evidence.Json.{
  Json, null, truth, number, text, array, object, Items, nil, item, Members, end, member, value_of,
}
use tokeninsights.Evidence.Records.{same, same_items, included, held, has, key_count}

abbrev Extends : Members → Members → Type 0
Extends ms ns = (k : String) (v : Json) → value_of k ms ≡ some v → value_of k ns ≡ some v

nat_same : (n : ℕ) → (n == n) ≡ true
nat_same n = ground arith

text_same : (s : String) → (s == s) ≡ true
text_same s = (eq_iff s s).1 refl

later-Extends :
    (key : String) (v : Json) (rest ns : Members) → Extends (member key v rest) ns → Extends rest ns
unfolding value_of
later-Extends key v rest ns h k w e = h k w (rw e refl)

first_found :
    (key : String) (v : Json) (rest ns : Members)
    → Extends (member key v rest) ns
    → is_none (value_of key rest) ≡ true
    → value_of key ns ≡ some v
unfolding value_of
first_found key v rest ns h alone =
    h key v (rw (none_of (value_of key rest) alone, text_same key) refl)
  where
    none_of : (o : Option Json) → is_none o ≡ true → o ≡ none
    none_of none e = refl
    none_of (some w) e = cc

mutual
  unfolding same key_count

  same_refl : (v : Json) → same v v ≡ true
  same_refl null = refl
  same_refl (truth true) = refl
  same_refl (truth false) = refl
  same_refl (number s) = text_same s
  same_refl (text s) = text_same s
  same_refl (array xs) = same_items_refl xs
  same_refl (object ms) = rw (nat_same (key_count ms), included_refl ms ms (λ k v e. e)) refl

  same_items_refl : (xs : Items) → same_items xs xs ≡ true
  same_items_refl nil = refl
  same_items_refl (item x xs) = rw (same_refl x, same_items_refl xs) refl

  included_refl : (ms ns : Members) → Extends ms ns → included ms ns ≡ true
  included_refl end ns h = refl
  included_refl (member key v rest) ns h = elim (Bool-cases (is_none (value_of key rest))) [
    | inl alone ↦
        rw
          (
            alone,
            first_found key v rest ns h alone,
            same_refl v,
            included_refl rest ns (later-Extends key v rest ns h),
          )
          refl
    | inr again ↦ rw (again, included_refl rest ns (later-Extends key v rest ns h)) refl
  ]

-- A value is the same as itself.
pub same_self : (v : Json) → same v v ≡ true
same_self v = same_refl v

pub both : (a b : Bool) → a && b ≡ true → (a ≡ true) × (b ≡ true)
both a b e = ground arith

found_at :
    (v : Json) (o : Option Json)
    → not (is_none o) && same v (held o) ≡ true
    → (w : Json) × (o ≡ some w) × (same v w ≡ true)
found_at v none e = cc
found_at v (some w) e = (w, refl, e)

-- A value of the members is the same as one of those that include them.
pub included-value_of :
    (name : String) (ms ns : Members) (v : Json)
    → included ms ns ≡ true
    → value_of name ms ≡ some v
    → (w : Json) × (value_of name ns ≡ some w) × (same v w ≡ true)
unfolding same value_of
included-value_of name end ns v i e = cc
included-value_of name (member key x rest) ns v i e =
    let (here, later) =
      both (has key rest || has key ns && same x (held (value_of key ns))) (included rest ns) i in
    elim (Option-cases (value_of name rest)) [
      | inr (y, at) ↦ included-value_of name rest ns v later (at ∙ (rw at at e))
      | inl alone ↦ elim (Bool-cases (key == name)) [
        | inl named ↦
            first (rw (alone, named) at e)
              (found_at x (value_of name ns) (named_found named alone here))
        | inr other ↦ absurd (none_apart (rw (alone, other) at e))
      ]
    ]
  where
    none_apart : none ≡ some v → ⊥
    none_apart e = cc

    first :
        some x ≡ some v
        → (w : Json) × (value_of name ns ≡ some w) × (same x w ≡ true)
        → (w : Json) × (value_of name ns ≡ some w) × (same v w ≡ true)
    first e h = subst (λ y. (w : Json) × (value_of name ns ≡ some w) × (same y w ≡ true)) (cc e) h

    named_found :
        (key == name) ≡ true
        → value_of name rest ≡ none
        → has key rest || has key ns && same x (held (value_of key ns)) ≡ true
        → has name ns && same x (held (value_of name ns)) ≡ true
    named_found named alone here = (rw ((eq_iff key name).0 named, alone) at here)
