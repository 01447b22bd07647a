-- ===== src/Processor/Select/Settled.antt =====
-- The outcomes, contributions and estimates of a settled group.
use tokeninsights.Prelude.{
  ℕ, zero, suc, ◌+◌, ◌≤◌, ◌<◌, String, Bool, true, false, not, ◌&&◌, List, [], ◌∷◌, Option, none,
  some, map, ◌==◌, string_eq, length, get_elem?, ◌≡◌, refl, sym, ap, subst, arith, if◌then◌else◌,
  Bool-cases, inl, inr, ◌∙◌, eq_iff,
}
use tokeninsights.Publication.{Fact}
use tokeninsights.Processor.Select.{
  Candidate, Outcome, Contribution, Estimate, Settlement, sort_group, last_such, selected_position,
  is_clean, is_v2, harness_at, last_position, dispose, outcome_of, outcomes_of, any_conflict,
  settle_selected, settle_sorted, settle_group,
}

unfoldable pub count_processed : List Outcome → ℕ
count_processed [] = 0
count_processed (o ∷ os) = (if o.disposition == "processed" then 1 else 0) + count_processed os

-- As many candidates are processed as contribute, at most one, and a group that contributes is not
-- also estimated. Every candidate has one outcome, in the order of the group.
pub record IsSettled (group : List Candidate) (s : Settlement) : Type 0 where
  pub named : map (λ o. o.evidence_id) s.outcomes ≡ map (λ c. c.evidence_id) group
  pub processed : count_processed s.outcomes ≡ length s.contributions
  pub once : length s.contributions + length s.estimates ≤ 1

-- A position that the search gives is in bounds.
last_such-lt :
    (p : Candidate → Bool) (i best bound : ℕ) (cs : List Candidate)
    → best < bound
    → i + length cs ≤ bound
    → last_such p i best cs < bound
unfolding last_such
last_such-lt p i best bound [] h k = h
last_such-lt p i best bound (c ∷ cs) h k = elim (Bool-cases (p c)) [
  | inl e ↦ rw (e, last_such) (last_such-lt p (i + 1) i bound cs (omega arith) (omega arith))
  | inr e ↦ rw (e, last_such) (last_such-lt p (i + 1) best bound cs h (omega arith))
]

selected_position-lt :
    (c : Candidate) (cs : List Candidate) → selected_position (c ∷ cs) < length (c ∷ cs)
unfolding selected_position
selected_position-lt c cs =
    let group = c ∷ cs in
    let k = last_such is_clean 0 (last_position group) group in
    let clean : k < length group =
      last_such-lt is_clean 0 (last_position group) (length group) group (omega arith)
        (omega arith) in
    elim (Bool-cases (harness_at (get_elem? group k) == "opencode")) [
      | inl e ↦ rw e (last_such-lt is_v2 0 k (length group) group clean (omega arith))
      | inr e ↦ rw e clean
    ]

get_elem?-lt :
    (cs : List Candidate) (k : ℕ) → k < length cs → (c : Candidate) × (get_elem? cs k ≡ some c)
get_elem?-lt [] k h = absurd (omega arith)
get_elem?-lt (c ∷ cs) zero h = (c, refl)
get_elem?-lt (c ∷ cs) (suc k) h = get_elem?-lt cs k (omega arith)

-- The chain of the tests of `dispose`.
abbrev chained :
    (conflict duplicate stale doubted is_selected earlier : Bool) → String → String × String
chained conflict duplicate stale doubted is_selected earlier code =
    if conflict
    then ("ambiguous", "conflicting_native_identity")
    else if duplicate
    then ("duplicate", "")
    else if stale
    then ("superseded", "")
    else if doubted
    then ("ambiguous", code)
    else if is_selected
    then ("processed", "")
    else if earlier
    then ("superseded", "")
    else ("duplicate", "")

chain :
    (conflict duplicate stale doubted is_selected earlier : Bool) (code : String)
    → ((chained conflict duplicate stale doubted is_selected earlier code).0 == "processed")
      ≡ (not conflict && (not duplicate && not stale && not doubted && is_selected))
chain true d s n i e code = refl
chain false true s n i e code = refl
chain false false true n i e code = refl
chain false false false true i e code = refl
chain false false false false true e code = refl
chain false false false false false true code = refl
chain false false false false false false code = refl

undoubted :
    (code : String) (b : Bool)
    → (not (code == "known_duplicate")
        && not (code == "stale_snapshot")
        && not (not (code == ""))
        && b)
      ≡ (code == "" && b)
undoubted code b = elim (Bool-cases (code == "")) [
  | inl e ↦
      subst
        (λ s.
          (not (s == "known_duplicate") && not (s == "stale_snapshot") && not (not (s == "")) && b)
          ≡ (s == "" && b))
        {x = ""} {y = code} (sym ((eq_iff code "").0 e)) refl
  | inr e ↦ ground (arith, e)
]

abbrev one_if : Bool → ℕ
one_if b = if b then 1 else 0

not_selected : (a b : Bool) → one_if (a && (b && false)) ≡ 0
not_selected true true = refl
not_selected true false = refl
not_selected false b = refl

contributes :
    (conflict : Bool) (code : String) (c : Contribution)
    → one_if (not conflict && code == "")
      ≡ length
          (if (if conflict then "conflicting_native_identity" else code) == "" then c ∷ [] else [])
contributes true code c = refl
contributes false code c = elim (Bool-cases (code == "")) [ inl e ↦ rw e refl | inr e ↦ rw e refl ]

one_of_both :
    (clean b d : Bool) (c : Contribution) (e : Estimate)
    → length (if clean then c ∷ [] else []) + length (if not clean && b && d then e ∷ [] else [])
      ≤ 1
one_of_both clean b d c e = ground arith

nothing_processed : count_processed [] ≡ 0
unfolding count_processed
nothing_processed = refl

zero_add : (n : ℕ) → 0 + n ≡ n
zero_add n = omega arith

module _ (json_hash : Fact → String) (id : String) (conflict : Bool) (selected : Candidate) where
  outcomes_of-named :
      (at' : Option ℕ) (cs : List Candidate)
      → map (λ o. o.evidence_id) (outcomes_of json_hash id conflict selected at' cs)
        ≡ map (λ c. c.evidence_id) cs
  unfolding outcomes_of outcome_of
  outcomes_of-named at' [] = refl
  outcomes_of-named none (c ∷ cs) = ap (λ l. c.evidence_id ∷ l) (outcomes_of-named none cs)
  outcomes_of-named (some zero) (c ∷ cs) = ap (λ l. c.evidence_id ∷ l) (outcomes_of-named none cs)
  outcomes_of-named (some (suc k)) (c ∷ cs) =
      ap (λ l. c.evidence_id ∷ l) (outcomes_of-named (some k) cs)

  -- Only the selected candidate is processed, if there is neither a conflict nor a doubt of it.
  dispose_lem :
      (is_selected : Bool) (c : Candidate)
      → ((dispose json_hash conflict selected is_selected c).0 == "processed")
        ≡ (not conflict && (c.code == "" && is_selected))
  unfolding dispose
  dispose_lem is_selected c =
      chain conflict (c.code == "known_duplicate") (c.code == "stale_snapshot") (not (c.code == ""))
        is_selected _ c.code
      ∙ ap (λ b. not conflict && b) (undoubted c.code is_selected)

  count-none :
      (cs : List Candidate)
      → count_processed (outcomes_of json_hash id conflict selected none cs) ≡ 0
  unfolding outcomes_of outcome_of count_processed
  count-none [] = refl
  count-none (c ∷ cs) =
      rw (dispose_lem false c, not_selected (not conflict) (c.code == ""), count-none cs) refl

  count-some :
      (k : ℕ) (c : Candidate) (cs : List Candidate)
      → get_elem? cs k ≡ some c
      → count_processed (outcomes_of json_hash id conflict selected (some k) cs)
        ≡ one_if (not conflict && c.code == "")
  unfolding outcomes_of outcome_of count_processed
  count-some k c [] e = cc
  count-some zero c (d ∷ ds) e =
      subst
        (λ x.
          count_processed (outcomes_of json_hash id conflict selected (some zero) (d ∷ ds))
          ≡ one_if (not conflict && x.code == ""))
        {x = d} {y = c} (cc e) (rw (dispose_lem true d) (ground (arith, count-none ds)))
  count-some (suc k) c (d ∷ ds) e =
      rw (dispose_lem false d, not_selected (not conflict) (d.code == ""))
        (zero_add _ ∙ count-some k c ds e)

module _ (json_hash : Fact → String) (id : String) where
  settle_selected-IsSettled :
      (k : ℕ) (group : List Candidate) (selected : Candidate)
      → get_elem? group k ≡ some selected
      → IsSettled group (settle_selected json_hash id k group selected)
  unfolding settle_selected
  settle_selected-IsSettled k group selected e =
      let conflict = any_conflict json_hash selected group in
      record {
        named = outcomes_of-named json_hash id conflict selected (some k) group;
        processed =
            count-some json_hash id conflict selected k selected group e
            ∙ contributes conflict selected.code _;
        once = one_of_both _ _ _ _ _;
      }

  settle_sorted-IsSettled :
      (group : List Candidate) → IsSettled group (settle_sorted json_hash id group)
  unfolding settle_sorted
  settle_sorted-IsSettled [] = record {
    named = refl;
    processed = nothing_processed;
    once = omega arith;
  }
  settle_sorted-IsSettled (c ∷ cs) =
      let (selected, e) =
        get_elem?-lt (c ∷ cs) (selected_position (c ∷ cs)) (selected_position-lt c cs) in
      rw (e, settle_sorted)
        (settle_selected-IsSettled (selected_position (c ∷ cs)) (c ∷ cs) selected e)

  -- Of the candidates for one fact, sorted, each gets one outcome, in their order; as many of them
  -- are processed as contribute, one or none, and what is not processed is estimated at most once.
  pub settle_group-IsSettled :
      (group : List Candidate) → IsSettled (sort_group group) (settle_group json_hash id group)
  unfolding settle_group
  settle_group-IsSettled group = settle_sorted-IsSettled (sort_group group)
