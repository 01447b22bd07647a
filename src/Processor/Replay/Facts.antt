-- ===== src/Processor/Replay/Facts.antt =====
-- What holds of every fact that a walk over the items of a session is given holds of those that it leaves.
use tokeninsights.Prelude.{
  String, Bool, true, false, not, ◌&&◌, List, [], ◌∷◌, Option, none, some, All, All-filter,
  Bool-cases, Option-cases, inl, inr, ◌==◌, string_eq,
}
use tokeninsights.Prelude.Maps.{Map, lookup, AllValues, insert-AllValues, lookup-AllValues}
use tokeninsights.Publication.{Fact}
use tokeninsights.Processor.Tokens.{CodexTokenCounts, less_than}
use tokeninsights.Processor.Native.{SourceMetadata}
use tokeninsights.Processor.Session.{CodexSnapshot}
use tokeninsights.Processor.Replay.{
  CodexItem, Proofs, Walk, or_empty, equal_counts, inherited, replay_fingerprint, judged_code,
  judge, compare_totals, count_item, meet_item, copy_item, walk_item, walk_items, place_item,
  sort_items, item_before,
}

module _ (P : Fact → Type 0) where
  abbrev pub ItemHolds : CodexItem → Type 0
  ItemHolds i = P i.fact

  -- Every fact that proves a fingerprint.
  abbrev pub ProofsHold : Proofs → Type 0
  ProofsHold ps = AllValues (AllValues P) ps

  pub or_empty-AllValues {ℓ κ} :
      {V : Type ℓ} (Q : V → Type κ) (k : String) (m : Map (Map V))
      → AllValues (AllValues Q) m
      → AllValues Q (or_empty (lookup k m))
  or_empty-AllValues Q k m h = elim (Option-cases (lookup k m)) [
    | inl missing ↦ rw missing tt
    | inr (v, found) ↦ rw found (lookup-AllValues (AllValues Q) k m v h found)
  ]

  pub sort_items-hold : (is : List CodexItem) → All ItemHolds is → All ItemHolds (sort_items is)
  unfolding sort_items place_item
  sort_items-hold [] h = tt
  sort_items-hold (i ∷ is) (p, h) = place_item-hold i (sort_items is) p (sort_items-hold is h)
    where
      place_item-hold :
          (a : CodexItem) (bs : List CodexItem)
          → ItemHolds a
          → All ItemHolds bs
          → All ItemHolds (place_item a bs)
      place_item-hold a [] p h = (p, tt)
      place_item-hold a (b ∷ bs) p (q, h) = elim (Bool-cases (item_before b a)) [
        | inl before ↦ rw before (q, place_item-hold a bs p h)
        | inr after ↦ rw after (p, (q, h))
      ]

  -- What a step of the walk leaves.
  abbrev StepHolds : CodexItem × Walk → Type 0
  StepHolds step = ItemHolds step.0 × ProofsHold step.1.proofs

  module _ (proof_hash : String → String → String → CodexSnapshot → String) (session : String)
      (meta : SourceMetadata) (parent_proofs : Proofs) (problem : String) where
    judge-StepHolds :
        (fingerprint : String) (doubtful : Bool) (item : CodexItem) (w : Walk)
        → ItemHolds item
        → ProofsHold w.proofs
        → StepHolds
            (judge proof_hash session meta parent_proofs problem fingerprint doubtful item w)
    unfolding judge
    judge-StepHolds fingerprint doubtful item w p h =
        let code =
          judged_code proof_hash session meta parent_proofs problem fingerprint doubtful item in
        elim (Bool-cases (code == "" && not (fingerprint == ""))) [
          | inl proves ↦ rw proves (
            p,
            insert-AllValues (AllValues P) fingerprint _ w.proofs
                (insert-AllValues P item.fact.id item.fact _ p
                  (or_empty-AllValues P fingerprint w.proofs h))
                h,
          )
          | inr other ↦ rw other (p, h)
        ]

    compare_totals-StepHolds :
        (previous cumulative : Option CodexTokenCounts) (fingerprint : String) (doubtful : Bool)
        (item : CodexItem) (w : Walk)
        → ItemHolds item
        → ProofsHold w.proofs
        → StepHolds (
            compare_totals proof_hash session meta parent_proofs problem previous cumulative
              fingerprint doubtful item w)
    compare_totals-StepHolds previous none fingerprint doubtful item w p h =
        judge-StepHolds fingerprint doubtful item w p h
    compare_totals-StepHolds none (some c) fingerprint doubtful item w p h =
        judge-StepHolds fingerprint doubtful item _ p h
    compare_totals-StepHolds (some b) (some c) fingerprint doubtful item w p h =
        elim (Bool-cases (equal_counts b c)) [
          | inl same ↦ rw same (p, h)
          | inr other ↦ elim (Bool-cases (less_than c b)) [
            | inl stale ↦ rw (other, stale) (p, h)
            | inr fresh ↦ rw (other, fresh) (judge-StepHolds fingerprint doubtful item _ p h)
          ]
        ]

    meet_item-StepHolds :
        (seen : Option String) (fingerprint : String) (doubtful : Bool) (item : CodexItem)
        (w : Walk)
        → ItemHolds item
        → ProofsHold w.proofs
        → StepHolds (
            meet_item proof_hash session meta parent_proofs problem seen fingerprint doubtful item
              w)
    unfolding count_item
    meet_item-StepHolds (some code) fingerprint doubtful item w p h = (p, h)
    meet_item-StepHolds none fingerprint doubtful item w p h =
        compare_totals-StepHolds _ item.codex.cumulative fingerprint doubtful item _ p h

    copy_item-StepHolds :
        (m : Map Fact) (fingerprint : String) (item : CodexItem) (w : Walk)
        → AllValues P m
        → ItemHolds item
        → ProofsHold w.proofs
        → StepHolds (copy_item proof_hash session meta parent_proofs problem m fingerprint item w)
    copy_item-StepHolds [] fingerprint item w q p h =
        meet_item-StepHolds _ fingerprint false item w p h
    copy_item-StepHolds ((id, original) ∷ []) fingerprint item w (q, _) p h = (q, h)
    copy_item-StepHolds (one ∷ two ∷ more) fingerprint item w q p h =
        meet_item-StepHolds _ fingerprint true item w p h

    pub walk_items-hold :
        (is : List CodexItem) (w : Walk)
        → All ItemHolds is
        → ProofsHold w.proofs
        → All ItemHolds (walk_items proof_hash session meta parent_proofs problem is w).0
          × ProofsHold (walk_items proof_hash session meta parent_proofs problem is w).1.proofs
    unfolding walk_items walk_item inherited
    walk_items-hold [] w h k = (tt, k)
    walk_items-hold (i ∷ is) w (p, h) k =
        let fingerprint = replay_fingerprint proof_hash i.codex in
        let given : AllValues P (inherited session (or_empty (lookup fingerprint w.proofs))) =
          All-filter _ _ _ (or_empty-AllValues P fingerprint w.proofs k) in
        let (q, next) = copy_item-StepHolds _ fingerprint i w given p k in
        let (rest, last) = walk_items-hold is _ h next in ((q, rest), last)
