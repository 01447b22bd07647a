-- ===== src/Evidence/Json/Leaves.antt =====
-- What a path of a record holds once a value is set at a path (packages/core/evidence/whitelist.go).
use tokeninsights.Prelude.{
  String, Bool, true, false, ◌&&◌, [], ◌∷◌, Option, none, some, ◌==◌, string_eq, if◌then◌else◌, ◌≡◌,
  ◌⊎◌, inl, inr, refl, sym, ap, subst, arith, eq_iff, Bool-cases, ◌∙◌,
}
use tokeninsights.Evidence.Json.{
  Json, null, truth, number, text, array, object, Members, end, member, value_of, or_later,
  FieldPath, members_of, leaf, put, set_leaf, is_object,
}

-- Each name stands once.
abbrev pub Unique : Members → Type 0
Unique end = Unit
Unique (member key v rest) = (value_of key rest ≡ none) × Unique rest

value_of-put :
    (name key : String) (v : Json) (ms : Members)
    → Unique ms
    → value_of key (put name v ms) ≡ (if name == key then some v else value_of key ms)
unfolding value_of put
value_of-put name key v end u = refl
value_of-put name key v (member other w rest) (alone, u) = ground (
  arith,
  value_of-put name key v rest u,
  eq_iff other name,
  eq_iff other key,
  eq_iff name key,
  alone,
)

abbrev mutual
  -- Each name stands once in each object.
  pub AllUnique : Json → Type 0
  AllUnique (object ms) = AllUniqueMembers ms
  AllUnique _ = Unit

  pub AllUniqueMembers : Members → Type 0
  AllUniqueMembers end = Unit
  AllUniqueMembers (member key v rest) =
      (value_of key rest ≡ none) × AllUnique v × AllUniqueMembers rest

Unique-of : (ms : Members) → AllUniqueMembers ms → Unique ms
Unique-of end u = tt
Unique-of (member key v rest) (alone, _, u) = (alone, Unique-of rest u)

none-put :
    (name key : String) (v : Json) (ms : Members)
    → (name == key) ≡ false
    → Unique ms
    → value_of key ms ≡ none
    → value_of key (put name v ms) ≡ none
none-put name key v ms apart u e = rw (value_of-put name key v ms u, apart) e

put-AllUnique :
    (name : String) (v : Json) (ms : Members)
    → AllUnique v
    → AllUniqueMembers ms
    → AllUniqueMembers (put name v ms)
unfolding put value_of
put-AllUnique name v end uv u = (refl, uv, tt)
put-AllUnique name v (member key w rest) uv (alone, uw, u) = elim (Bool-cases (key == name)) [
  | inl e ↦ rw e (subst (λ n. value_of n rest ≡ none) ((eq_iff key name).0 e) alone, uv, u)
  | inr e ↦ rw e (
    none-put name key v rest (other_way key name e) (Unique-of rest u) alone,
    uw,
    put-AllUnique name v rest uv u,
  )
]
  where
    other_way : (k n : String) → (k == n) ≡ false → (n == k) ≡ false
    other_way k n e = ground (arith, eq_iff k n, eq_iff n k)

value_of-AllUnique :
    (name : String) (ms : Members)
    → AllUniqueMembers ms
    → AllUniqueMembers (members_of (value_of name ms))
unfolding value_of
value_of-AllUnique name end u = tt
value_of-AllUnique name (member key v rest) (alone, uv, u) =
    later (value_of name rest) (key == name) v (value_of-AllUnique name rest u) uv
  where
    later :
        (o : Option Json) (b : Bool) (v : Json)
        → AllUniqueMembers (members_of o)
        → AllUnique v
        → AllUniqueMembers (members_of (or_later o b v))
    later (some w) b v h uv = h
    later none true (object ms) h uv = uv
    later none true null h uv = tt
    later none true (truth t) h uv = tt
    later none true (number n) h uv = tt
    later none true (text n) h uv = tt
    later none true (array n) h uv = tt
    later none false v h uv = tt

pub set_leaf-AllUnique :
    (p : FieldPath) (v : Json) (ms : Members)
    → AllUnique v
    → AllUniqueMembers ms
    → AllUniqueMembers (set_leaf p v ms)
unfolding set_leaf
set_leaf-AllUnique [] v ms uv u = u
set_leaf-AllUnique (p ∷ []) v ms uv u = put-AllUnique p v ms uv u
set_leaf-AllUnique (p ∷ q ∷ qs) v ms uv u =
    put-AllUnique p _ ms (set_leaf-AllUnique (q ∷ qs) v _ uv (value_of-AllUnique p ms u)) u

pub leaf-end : (q : FieldPath) → leaf q end ≡ none
unfolding leaf value_of
leaf-end [] = refl
leaf-end (p ∷ []) = refl
leaf-end (p ∷ q ∷ qs) = leaf-end (q ∷ qs)

same_name : (p : String) → (p == p) ≡ true
same_name p = (eq_iff p p).1 refl

-- A value that is set is there.
pub leaf-set_leaf :
    (p : String) (ps : FieldPath) (v : Json) (ms : Members)
    → AllUniqueMembers ms
    → leaf (p ∷ ps) (set_leaf (p ∷ ps) v ms) ≡ some v
unfolding leaf set_leaf
leaf-set_leaf p [] v ms u = rw (value_of-put p p v ms (Unique-of ms u), same_name p) refl
leaf-set_leaf p (q ∷ qs) v ms u =
    rw (value_of-put p p _ ms (Unique-of ms u), same_name p)
      (leaf-set_leaf q qs v _ (value_of-AllUnique p ms u))

one_name : (p q : String) → (p == q) ≡ true → ◌≡◌ {A = FieldPath} (q ∷ []) (p ∷ [])
one_name p q same = ap (λ n. n ∷ []) (sym ((eq_iff p q).0 same))

longer :
    (p q : String) (qs ps : FieldPath)
    → (p == q) ≡ true
    → qs ≡ ps
    → ◌≡◌ {A = FieldPath} (q ∷ qs) (p ∷ ps)
longer p q qs ps same e = rw ((eq_iff p q).0 same, e) refl

some_inj : {v w : Json} → some v ≡ some w → w ≡ v
some_inj e = cc

none_apart : {w : Json} → none ≡ some w → ⊥
none_apart e = cc

true_apart : false ≡ true → ⊥
true_apart e = cc

object_apart : (w : Json) {ms : Members} → is_object w ≡ false → some (object ms) ≡ some w → ⊥
object_apart (object ms) nw e = cc
object_apart null nw e = cc
object_apart (truth b) nw e = cc
object_apart (number n) nw e = cc
object_apart (text n) nw e = cc
object_apart (array n) nw e = cc

members_of-plain : (v : Json) → is_object v ≡ false → members_of (some v) ≡ end
members_of-plain (object ms) nv = cc
members_of-plain null nv = refl
members_of-plain (truth b) nv = refl
members_of-plain (number n) nv = refl
members_of-plain (text n) nv = refl
members_of-plain (array n) nv = refl

leaf_below :
    (r : String) (qs : FieldPath) (v : Json)
    → is_object v ≡ false
    → leaf (r ∷ qs) (members_of (some v)) ≡ none
leaf_below r qs v nv = rw (members_of-plain v nv) (leaf-end (r ∷ qs))

first_name :
    (q : String) (qs : FieldPath) (p : String) (v : Json) (ms : Members)
    → AllUniqueMembers ms
    → (p == q) ≡ false
    → leaf (q ∷ qs) (put p v ms) ≡ leaf (q ∷ qs) ms
unfolding leaf
first_name q [] p v ms u apart = rw (value_of-put p q v ms (Unique-of ms u), apart) refl
first_name q (r ∷ qs) p v ms u apart = rw (value_of-put p q v ms (Unique-of ms u), apart) refl

-- Only the value that is set is new among those that are no objects.
pub leaf-set_leaf-only :
    (p q : FieldPath) (v w : Json) (ms : Members)
    → AllUniqueMembers ms
    → is_object v ≡ false
    → is_object w ≡ false
    → leaf q (set_leaf p v ms) ≡ some w
    → ((q ≡ p) × (w ≡ v)) ⊎ (leaf q ms ≡ some w)
unfolding leaf set_leaf
leaf-set_leaf-only [] q v w ms u nv nw e = inr e
leaf-set_leaf-only (p ∷ ps) [] v w ms u nv nw e = cc
leaf-set_leaf-only (p ∷ []) (q ∷ []) v w ms u nv nw e = elim (Bool-cases (p == q)) [
  | inl same ↦
      inl (one_name p q same, some_inj (rw (value_of-put p q v ms (Unique-of ms u), same) at e))
  | inr apart ↦ inr (rw (value_of-put p q v ms (Unique-of ms u), apart) at e)
]
leaf-set_leaf-only (p ∷ []) (q ∷ r ∷ qs) v w ms u nv nw e = elim (Bool-cases (p == q)) [
  | inl same ↦ absurd (
      none_apart
        (sym (leaf_below r qs v nv) ∙ (rw (value_of-put p q v ms (Unique-of ms u), same) at e)))
  | inr apart ↦ inr (rw (value_of-put p q v ms (Unique-of ms u), apart) at e)
]
leaf-set_leaf-only (p ∷ r ∷ ps) (q ∷ []) v w ms u nv nw e = elim (Bool-cases (p == q)) [
  | inl same ↦ absurd (object_apart w nw (rw (value_of-put p q _ ms (Unique-of ms u), same) at e))
  | inr apart ↦ inr (rw (value_of-put p q _ ms (Unique-of ms u), apart) at e)
]
leaf-set_leaf-only (p ∷ r ∷ ps) (q ∷ s ∷ qs) v w ms u nv nw e = elim (Bool-cases (p == q)) [
  | inl same ↦
      let e' = (rw (value_of-put p q _ ms (Unique-of ms u), same) at e) in
      elim (leaf-set_leaf-only (r ∷ ps) (s ∷ qs) v w _ (value_of-AllUnique p ms u) nv nw e') [
        | inl (at, is_v) ↦ inl (longer p q (s ∷ qs) (r ∷ ps) same at, is_v)
        | inr old ↦ inr (
            subst (λ n. leaf (s ∷ qs) (members_of (value_of n ms)) ≡ some w) ((eq_iff p q).0 same)
              old)
      ]
  | inr apart ↦ inr (rw (value_of-put p q _ ms (Unique-of ms u), apart) at e)
]

-- Neither of two paths goes on from the other.
unfoldable pub comparable : FieldPath → FieldPath → Bool
comparable [] qs = true
comparable (p ∷ ps) [] = true
comparable (p ∷ ps) (q ∷ qs) = p == q && comparable ps qs

pub leaf-set_leaf-apart :
    (p q : FieldPath) (v : Json) (ms : Members)
    → AllUniqueMembers ms
    → comparable p q ≡ false
    → leaf q (set_leaf p v ms) ≡ leaf q ms
unfolding leaf set_leaf comparable
leaf-set_leaf-apart [] q v ms u c = cc
leaf-set_leaf-apart (p ∷ ps) [] v ms u c = cc
leaf-set_leaf-apart (p ∷ []) (q ∷ qs) v ms u c = elim (Bool-cases (p == q)) [
  | inl same ↦ absurd (true_apart (sym (rw same at c)))
  | inr apart ↦ first_name q qs p v ms u apart
]
leaf-set_leaf-apart (p ∷ r ∷ ps) (q ∷ []) v ms u c = elim (Bool-cases (p == q)) [
  | inl same ↦ absurd (true_apart (sym (rw same at c)))
  | inr apart ↦ first_name q [] p _ ms u apart
]
leaf-set_leaf-apart (p ∷ r ∷ ps) (q ∷ s ∷ qs) v ms u c = elim (Bool-cases (p == q)) [
  | inl same ↦
      rw (value_of-put p q _ ms (Unique-of ms u), same)
        (leaf-set_leaf-apart (r ∷ ps) (s ∷ qs) v _ (value_of-AllUnique p ms u) (rw same at c)
          ∙ ap (λ n. leaf (s ∷ qs) (members_of (value_of n ms))) ((eq_iff p q).0 same))
  | inr apart ↦ first_name q (s ∷ qs) p _ ms u apart
]
