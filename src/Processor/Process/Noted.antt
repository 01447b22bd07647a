-- ===== src/Processor/Process/Noted.antt =====
-- Which records have an outcome while `Process` runs.
use tokeninsights.Prelude.{
  String, Bool, true, false, ◌||◌, List, [], ◌∷◌, ◌++◌, map, ◌≡◌, refl, ap, ◌∙◌, arith, ◌==◌,
  string_eq, Bool-cases, inl, inr, if◌then◌else◌, codes,
}
use tokeninsights.Prelude.Maps.{Map, lookup, insert}
use tokeninsights.CollectorProgress.Snapshot.{codes_lt}
use tokeninsights.Publication.{Fact}
use tokeninsights.Processor.Ancestry.{contains}
use tokeninsights.Processor.Select.{Candidate, Outcome, place, sort_group, sooner, settle_group}
use tokeninsights.Processor.Select.Settled.{settle_group-IsSettled}
use tokeninsights.Processor.Process.{
  group_candidates, group_or_none, place_group, sort_groups, settle_groups,
}

abbrev pub ids_of : List Candidate → List String
ids_of cs = map (λ c. c.evidence_id) cs

abbrev pub outcome_ids : List Outcome → List String
outcome_ids os = map (λ o. o.evidence_id) os

pub contains-append :
    (id : String) (xs ys : List String)
    → contains id (xs ++ ys) ≡ (contains id xs || contains id ys)
unfolding contains
contains-append id [] ys = refl
contains-append id (x ∷ xs) ys = ground (arith, contains-append id xs ys)

ids_of-append : (as' bs : List Candidate) → ids_of (as' ++ bs) ≡ ids_of as' ++ ids_of bs
ids_of-append [] bs = refl
ids_of-append (a ∷ as') bs = ap (λ r. a.evidence_id ∷ r) (ids_of-append as' bs)

pub outcome_ids-append :
    (as' bs : List Outcome) → outcome_ids (as' ++ bs) ≡ outcome_ids as' ++ outcome_ids bs
outcome_ids-append [] bs = refl
outcome_ids-append (a ∷ as') bs = ap (λ r. a.evidence_id ∷ r) (outcome_ids-append as' bs)

contains-place :
    (id : String) (a : Candidate) (bs : List Candidate)
    → contains id (ids_of (place a bs)) ≡ contains id (a.evidence_id ∷ ids_of bs)
unfolding place contains
contains-place id a [] = refl
contains-place id a (b ∷ bs) = elim (Bool-cases (sooner b a)) [
  | inl before ↦ rw before (ground (arith, contains-place id a bs))
  | inr after ↦ rw after refl
]

contains-sort_group :
    (id : String) (cs : List Candidate)
    → contains id (ids_of (sort_group cs)) ≡ contains id (ids_of cs)
unfolding sort_group contains
contains-sort_group id [] = refl
contains-sort_group id (c ∷ cs) =
    contains-place id c (sort_group cs)
    ∙ ap (λ r. if c.evidence_id == id then true else r) (contains-sort_group id cs)

-- Whether a group holds the record.
unfoldable pub grouped : String → Map (List Candidate) → Bool
grouped id [] = false
grouped id ((key, cs) ∷ rest) = contains id (ids_of cs) || grouped id rest

other_way : (a b : Bool) → (a || (if b then true else false)) ≡ (b || a)
other_way a b = ground arith

contains-added :
    (id : String) (c : Candidate) (cs : List Candidate)
    → contains id (ids_of (cs ++ c ∷ [])) ≡ ((c.evidence_id == id) || contains id (ids_of cs))
unfolding contains
contains-added id c cs =
    ap (contains id) (ids_of-append cs (c ∷ []))
    ∙ contains-append id (ids_of cs) (c.evidence_id ∷ [])
    ∙ other_way (contains id (ids_of cs)) (c.evidence_id == id)

-- A group of which the records are those of the group before, and perhaps one more.
grouped-insert :
    (id k : String) (more : Bool) (v : List Candidate) (m : Map (List Candidate))
    → contains id (ids_of v) ≡ (more || contains id (ids_of (group_or_none (lookup k m))))
    → grouped id (insert k v m) ≡ (more || grouped id m)
unfolding grouped insert lookup contains
grouped-insert id k more v [] h = ground (arith, h)
grouped-insert id k more v ((other, cs) ∷ rest) h = elim (Bool-cases (other == k)) [
  | inl same ↦ rw same (over more (contains id (ids_of v)) _ (grouped id rest) (rw same at h))
  | inr apart ↦
      rw apart
        (under more (contains id (ids_of cs)) _ _ (grouped-insert id k more v rest (rw apart at h)))
]
  where
    over : (m a b r : Bool) → a ≡ (m || b) → (a || r) ≡ (m || (b || r))
    over m a b r e = ground arith

    under : (m a b r : Bool) → b ≡ (m || r) → (a || b) ≡ (m || (a || r))
    under m a b r e = ground arith

grouped-group_candidates :
    (id : String) (cs : List Candidate) (m : Map (List Candidate))
    → grouped id (group_candidates cs m) ≡ (contains id (ids_of cs) || grouped id m)
unfolding group_candidates contains
grouped-group_candidates id [] m = refl
grouped-group_candidates id (c ∷ cs) m =
    let more = insert c.fact.id (group_or_none (lookup c.fact.id m) ++ c ∷ []) m in
    ground (
      arith,
      grouped-group_candidates id cs more,
      grouped-insert id c.fact.id (c.evidence_id == id) _ m
          (contains-added id c (group_or_none (lookup c.fact.id m))),
    )

grouped-place_group :
    (id key : String) (cs : List Candidate) (m : Map (List Candidate))
    → grouped id (place_group key cs m) ≡ (contains id (ids_of cs) || grouped id m)
unfolding grouped place_group
grouped-place_group id key cs [] = refl
grouped-place_group id key cs ((other, ds) ∷ rest) =
    elim (Bool-cases (codes_lt (codes other) (codes key))) [
      | inl before ↦ rw before (ground (arith, grouped-place_group id key cs rest))
      | inr after ↦ rw after refl
    ]

grouped-sort_groups :
    (id : String) (m : Map (List Candidate)) → grouped id (sort_groups m) ≡ grouped id m
unfolding grouped sort_groups
grouped-sort_groups id [] = refl
grouped-sort_groups id ((key, cs) ∷ rest) =
    grouped-place_group id key cs (sort_groups rest)
    ∙ ap (λ r. contains id (ids_of cs) || r) (grouped-sort_groups id rest)

pub or_false : (b : Bool) → (b || false) ≡ b
or_false true = refl
or_false false = refl

module _ (json_hash : Fact → String) where
  contains-settle_group :
      (id key : String) (cs : List Candidate)
      → contains id (outcome_ids (settle_group json_hash key cs).outcomes) ≡ contains id (ids_of cs)
  contains-settle_group id key cs =
      ap (contains id) (settle_group-IsSettled json_hash key cs).named ∙ contains-sort_group id cs

  contains-settle_groups :
      (id : String) (m : Map (List Candidate))
      → contains id (outcome_ids (settle_groups json_hash m).outcomes) ≡ grouped id m
  unfolding settle_groups grouped contains
  contains-settle_groups id [] = refl
  contains-settle_groups id ((key, cs) ∷ rest) =
      let first = (settle_group json_hash key cs).outcomes in
      let later = (settle_groups json_hash rest).outcomes in
      ap (contains id) (outcome_ids-append first later)
      ∙ contains-append id (outcome_ids first) (outcome_ids later)
      ∙ ap (λ r. r || contains id (outcome_ids later)) (contains-settle_group id key cs)
      ∙ ap (λ r. contains id (ids_of cs) || r) (contains-settle_groups id rest)

  -- Settling the groups gives an outcome to each of the candidates.
  pub settled_ids :
      (id : String) (cs : List Candidate)
      → contains id
          (outcome_ids (settle_groups json_hash (sort_groups (group_candidates cs []))).outcomes)
        ≡ contains id (ids_of cs)
  unfolding grouped
  settled_ids id cs =
      contains-settle_groups id (sort_groups (group_candidates cs []))
      ∙ grouped-sort_groups id (group_candidates cs [])
      ∙ grouped-group_candidates id cs []
      ∙ or_false (contains id (ids_of cs))
