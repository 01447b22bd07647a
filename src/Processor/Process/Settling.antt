-- ===== src/Processor/Process/Settling.antt =====
-- What holds of the facts of all candidates holds of those that contribute or are estimated.
use tokeninsights.Prelude.{
  String, Bool, true, false, List, [], ◌∷◌, some, ◌≡◌, subst, All, All-append, All-get_elem?,
  get_elem?, Bool-cases, Option-cases, inl, inr, ◌==◌, string_eq, if◌then◌else◌, codes,
}
use tokeninsights.Prelude.Maps.{Map, lookup, AllValues, insert-AllValues, lookup-AllValues}
use tokeninsights.CollectorProgress.Snapshot.{codes_lt}
use tokeninsights.Publication.{Fact}
use tokeninsights.Processor.Replay.{CodexItem}
use tokeninsights.Processor.Replay.Facts.{ItemHolds}
use tokeninsights.Processor.Ancestry.Facts.{SessionsHold}
use tokeninsights.Processor.Select.{
  Candidate, Settlement, sooner, place, sort_group, selected_position, settle_selected,
  settle_sorted, settle_group,
}
use tokeninsights.Processor.Parse.{EvidenceCandidate}
use tokeninsights.Processor.Process.{
  items_among, all_items, item_named, resolved_candidates, group_candidates, place_group,
  sort_groups, settle_groups,
}

module _ (P : Fact → Type 0) where
  abbrev pub CandidateHolds : Candidate → Type 0
  CandidateHolds c = P c.fact

  -- The facts that a settlement counts or estimates.
  pub record SettlementHolds (s : Settlement) : Type 0 where
    pub contributed : All (λ c. P c.fact) s.contributions
    pub estimated : All (λ e. P e.fact) s.estimates

  pub items_among-hold :
      (cs : List EvidenceCandidate) → All (λ c. P c.fact) cs → All (ItemHolds P) (items_among cs)
  unfolding items_among
  items_among-hold [] h = tt
  items_among-hold (c ∷ cs) (p, h) = elim (Option-cases c.codex) [
    | inl other ↦ rw other (items_among-hold cs h)
    | inr (codex, found) ↦ rw found (p, items_among-hold cs h)
  ]

  pub all_items-hold :
      (m : Map (List CodexItem)) → SessionsHold P m → All (ItemHolds P) (all_items m)
  unfolding all_items
  all_items-hold [] h = tt
  all_items-hold ((session, is) ∷ rest) (p, h) =
      All-append (ItemHolds P) is _ p (all_items-hold rest h)

  item_named-hold :
      (id : String) (is : List CodexItem) (i : CodexItem)
      → All (ItemHolds P) is
      → item_named id is ≡ some i
      → P i.fact
  unfolding item_named
  item_named-hold id [] i h e = absurd cc
  item_named-hold id (j ∷ is) i (p, h) e = elim (Bool-cases (j.evidence_id == id)) [
    | inl same ↦ subst (ItemHolds P) (some_inj (rw same at e)) p
    | inr apart ↦ item_named-hold id is i h (rw apart at e)
  ]
    where
      some_inj : some j ≡ some i → j ≡ i
      some_inj e = cc

  pub resolved_candidates-hold :
      (is : List CodexItem) (cs : List EvidenceCandidate)
      → All (ItemHolds P) is
      → All (λ c. P c.fact) cs
      → All CandidateHolds (resolved_candidates is cs)
  unfolding resolved_candidates
  resolved_candidates-hold is [] h k = tt
  resolved_candidates-hold is (c ∷ cs) h (p, k) = elim (Option-cases (item_named c.stored.id is)) [
    | inl missing ↦ rw missing (p, resolved_candidates-hold is cs h k)
    | inr (i, found) ↦
        rw found (item_named-hold c.stored.id is i h found, resolved_candidates-hold is cs h k)
  ]

  abbrev GroupsHold : Map (List Candidate) → Type 0
  GroupsHold m = AllValues (All CandidateHolds) m

  group_candidates-hold :
      (cs : List Candidate) (m : Map (List Candidate))
      → All CandidateHolds cs
      → GroupsHold m
      → GroupsHold (group_candidates cs m)
  unfolding group_candidates
  group_candidates-hold [] m h k = k
  group_candidates-hold (c ∷ cs) m (p, h) k = elim (Option-cases (lookup c.fact.id m)) [
    | inl missing ↦
        rw missing
          (group_candidates-hold cs _ h (insert-AllValues (All CandidateHolds) _ _ m (p, tt) k))
    | inr (before, found) ↦ rw found (
        group_candidates-hold cs _ h (
          insert-AllValues (All CandidateHolds) _ _ m
            (All-append CandidateHolds before (c ∷ [])
              (lookup-AllValues (All CandidateHolds) _ m before k found) (p, tt))
            k))
  ]

  place_group-hold :
      (id : String) (cs : List Candidate) (m : Map (List Candidate))
      → All CandidateHolds cs
      → GroupsHold m
      → GroupsHold (place_group id cs m)
  unfolding place_group
  place_group-hold id cs [] h k = (h, tt)
  place_group-hold id cs ((other, ds) ∷ rest) h (q, k) =
      elim (Bool-cases (codes_lt (codes other) (codes id))) [
        | inl before ↦ rw before (q, place_group-hold id cs rest h k)
        | inr after ↦ rw after (h, (q, k))
      ]

  sort_groups-hold : (m : Map (List Candidate)) → GroupsHold m → GroupsHold (sort_groups m)
  unfolding sort_groups
  sort_groups-hold [] h = tt
  sort_groups-hold ((id, cs) ∷ rest) (p, h) = place_group-hold id cs _ p (sort_groups-hold rest h)

  sort_group-hold :
      (cs : List Candidate) → All CandidateHolds cs → All CandidateHolds (sort_group cs)
  unfolding sort_group place
  sort_group-hold [] h = tt
  sort_group-hold (c ∷ cs) (p, h) = place-hold c (sort_group cs) p (sort_group-hold cs h)
    where
      place-hold :
          (a : Candidate) (bs : List Candidate)
          → CandidateHolds a
          → All CandidateHolds bs
          → All CandidateHolds (place a bs)
      place-hold a [] p h = (p, tt)
      place-hold a (b ∷ bs) p (q, h) = elim (Bool-cases (sooner b a)) [
        | inl before ↦ rw before (q, place-hold a bs p h)
        | inr after ↦ rw after (p, (q, h))
      ]

  -- A list of one or of none.
  kept_if :
      {A : Type 0} (Q : A → Type 0) (test : Bool) (a : A)
      → Q a
      → All Q (if test then a ∷ [] else [])
  kept_if Q true a q = (q, tt)
  kept_if Q false a q = tt

  module _ (json_hash : Fact → String) where
    settle_sorted-SettlementHolds :
        (id : String) (group : List Candidate)
        → All CandidateHolds group
        → SettlementHolds (settle_sorted json_hash id group)
    unfolding settle_sorted settle_selected
    settle_sorted-SettlementHolds id group h =
        elim (Option-cases (get_elem? group (selected_position group))) [
          | inl missing ↦ rw (missing, settle_sorted) (record { contributed = tt; estimated = tt })
          | inr (selected, found) ↦
              let p = All-get_elem? CandidateHolds group _ selected h found in
              rw (found, settle_sorted)
                (record { contributed = kept_if _ _ _ p; estimated = kept_if _ _ _ p })
        ]

    settle_group-SettlementHolds :
        (id : String) (cs : List Candidate)
        → All CandidateHolds cs
        → SettlementHolds (settle_group json_hash id cs)
    unfolding settle_group
    settle_group-SettlementHolds id cs h =
        settle_sorted-SettlementHolds id (sort_group cs) (sort_group-hold cs h)

    settle_groups-hold :
        (m : Map (List Candidate)) → GroupsHold m → SettlementHolds (settle_groups json_hash m)
    unfolding settle_groups
    settle_groups-hold [] h = record { contributed = tt; estimated = tt }
    settle_groups-hold ((id, cs) ∷ rest) (p, h) =
        let first = settle_group-SettlementHolds id cs p in
        let later = settle_groups-hold rest h in
        record {
          contributed = All-append _ _ _ first.contributed later.contributed;
          estimated = All-append _ _ _ first.estimated later.estimated;
        }

    pub settled-hold :
        (cs : List Candidate)
        → All CandidateHolds cs
        → SettlementHolds (settle_groups json_hash (sort_groups (group_candidates cs [])))
    settled-hold cs h = settle_groups-hold _ (sort_groups-hold _ (group_candidates-hold cs [] h tt))
