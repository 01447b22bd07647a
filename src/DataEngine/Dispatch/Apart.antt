-- ===== src/DataEngine/Dispatch/Apart.antt =====
-- Components without a common scope, and what the loop does to lists of them.
use tokeninsights.Prelude.{
  ℕ, zero, suc, String, true, false, List, [], ◌∷◌, ◌++◌, none, some, ◌&&◌, ◌≡◌, ◌≢◌, ◌⊎◌, inl, inr,
  sym, ap, subst, arith, ◌==◌, string_eq, Bool-cases, eq_iff, All, All-append, All-erase_idx,
  All-get_elem?, get_elem?, erase_idx,
}
use tokeninsights.Prelude.Maps.{lookup}
use tokeninsights.DataEngine.{Work}
use tokeninsights.DataEngine.Dispatch.{release}

both_equal : (s t u v : String) → (s == t && u == v) ≡ true → (s ≡ t) × (u ≡ v)
both_equal s t u v h = ground (arith, eq_iff s t, eq_iff u v)

module _ {Evidence : Type 0} where
  -- No scope of one is a scope of the other, in one dataset.
  abbrev pub Disjoint : Work Evidence → Work Evidence → Type 0
  Disjoint a b =
      a.dataset_id ≡ b.dataset_id
      → (scope : String) → (lookup scope a.scopes ≡ none) ⊎ (lookup scope b.scopes ≡ none)

  -- The root is one of the scopes.
  abbrev pub IsRooted : Work Evidence → Type 0
  IsRooted a = lookup a.root a.scopes ≢ none

  abbrev pub AreApart : List (Work Evidence) → Type 0
  AreApart [] = Unit
  AreApart (a ∷ as') = All (Disjoint a) as' × AreApart as'

  abbrev pub AreAcross : List (Work Evidence) → List (Work Evidence) → Type 0
  AreAcross as' bs = All (λ a. All (Disjoint a) bs) as'

  pub Disjoint-sym : (a b : Work Evidence) → Disjoint a b → Disjoint b a
  Disjoint-sym a b h same scope = elim (h (sym same) scope) [ inl e ↦ inr e | inr e ↦ inl e ]

  pub All-Disjoint-sym :
      (a : Work Evidence) (bs : List (Work Evidence))
      → All (Disjoint a) bs
      → All (λ b. Disjoint b a) bs
  All-Disjoint-sym a [] h = tt
  All-Disjoint-sym a (b ∷ bs) (d, h) = (Disjoint-sym a b d, All-Disjoint-sym a bs h)

  pub append-AreApart :
      (as' : List (Work Evidence)) (b : Work Evidence)
      → AreApart as'
      → All (Disjoint b) as'
      → AreApart (as' ++ b ∷ [])
  append-AreApart [] b h k = (tt, tt)
  append-AreApart (a ∷ as') b (d, h) (e, k) =
      (All-append (Disjoint a) as' _ d (Disjoint-sym b a e, tt), append-AreApart as' b h k)

  pub AreAcross-append :
      (as' bs : List (Work Evidence)) (b : Work Evidence)
      → AreAcross as' bs
      → All (λ a. Disjoint a b) as'
      → AreAcross as' (bs ++ b ∷ [])
  AreAcross-append [] bs b h k = tt
  AreAcross-append (a ∷ as') bs b (d, h) (e, k) =
      (All-append (Disjoint a) bs _ d (e, tt), AreAcross-append as' bs b h k)

  pub erase_idx-AreApart :
      (as' : List (Work Evidence)) (i : ℕ) → AreApart as' → AreApart (erase_idx as' i)
  unfolding erase_idx
  erase_idx-AreApart [] i h = tt
  erase_idx-AreApart (a ∷ as') zero (d, h) = h
  erase_idx-AreApart (a ∷ as') (suc i) (d, h) =
      (All-erase_idx (Disjoint a) as' i d, erase_idx-AreApart as' i h)

  -- Of a component that is taken out, the others are disjoint.
  pub erased-Disjoint :
      (as' : List (Work Evidence)) (i : ℕ) (a : Work Evidence)
      → AreApart as'
      → get_elem? as' i ≡ some a
      → All (λ b. Disjoint b a) (erase_idx as' i)
  unfolding erase_idx
  erased-Disjoint [] i a h e = tt
  erased-Disjoint (b ∷ bs) zero a (d, h) e =
      subst (λ x. All (λ c. Disjoint c x) bs) {x = b} {y = a} (cc e) (All-Disjoint-sym b bs d)
  erased-Disjoint (b ∷ bs) (suc i) a (d, h) e =
      (All-get_elem? (Disjoint b) bs i a d e, erased-Disjoint bs i a h e)

  -- Rooted components that are apart differ in dataset or root.
  Disjoint-roots :
      (a b : Work Evidence)
      → IsRooted a
      → IsRooted b
      → Disjoint a b
      → (a.dataset_id == b.dataset_id && a.root == b.root) ≡ false
  Disjoint-roots a b ra rb h =
      elim (Bool-cases (a.dataset_id == b.dataset_id && a.root == b.root)) [
        | inr e ↦ e
        | inl e ↦
            let (datasets, roots) = both_equal a.dataset_id b.dataset_id a.root b.root e in
            elim (h datasets a.root) [
              | inl out ↦ absurd (ra out)
              | inr out ↦ absurd (rb (subst (λ s. lookup s b.scopes ≡ none) roots out))
            ]
      ]

  -- `release` drops the component that it is given by its position.
  pub release-erase_idx :
      (as' : List (Work Evidence)) (i : ℕ) (a : Work Evidence)
      → AreApart as'
      → All IsRooted as'
      → get_elem? as' i ≡ some a
      → release a as' ≡ erase_idx as' i
  unfolding release erase_idx
  release-erase_idx [] i a h r e = cc
  release-erase_idx (b ∷ bs) zero a h r e =
      subst (λ x. release x (b ∷ bs) ≡ bs) {x = b} {y = a} (cc e)
        (ground (arith, eq_iff b.dataset_id b.dataset_id, eq_iff b.root b.root))
  release-erase_idx (b ∷ bs) (suc i) a (d, h) (rb, r) e =
      rw
        (Disjoint-roots b a rb (All-get_elem? IsRooted bs i a r e)
          (All-get_elem? (Disjoint b) bs i a d e))
        (ap (λ rest. b ∷ rest) (release-erase_idx bs i a h r e))
