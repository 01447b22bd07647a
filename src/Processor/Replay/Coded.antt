-- ===== src/Processor/Replay/Coded.antt =====
-- The items of a session with a problem.
use tokeninsights.Prelude.{
  String, ◌≡◌, refl, subst, Bool, true, false, not, ◌&&◌, List, [], ◌∷◌, Option, none, some, All,
  ◌==◌, string_eq, if◌then◌else◌, inl, inr, Bool-cases,
}
use tokeninsights.Prelude.Maps.{Map, lookup, insert}
use tokeninsights.Publication.{Fact}
use tokeninsights.Processor.Tokens.{CodexTokenCounts, less_than}
use tokeninsights.Processor.Native.{SourceMetadata, text_or}
use tokeninsights.Processor.Session.{CodexSnapshot}
use tokeninsights.Processor.Replay.{
  CodexItem, Proofs, Walk, equal_counts, or_empty, inherited, replay_fingerprint, judged_code,
  coded, judge, compare_totals, count_item, meet_item, copy_item, walk_item, walk_items,
}

abbrev pub IsCode : String → Type 0
IsCode code = (code == "") ≡ false

abbrev pub IsCoded : CodexItem → Type 0
IsCoded item = IsCode item.code

abbrev pub AreCodes : Map String → Type 0
AreCodes seen = All (λ entry. IsCode entry.1) seen

AreCodes-insert :
    (id code : String) (seen : Map String)
    → IsCode code
    → AreCodes seen
    → AreCodes (insert id code seen)
unfolding insert
AreCodes-insert id code [] c h = (c, tt)
AreCodes-insert id code ((k, v) ∷ seen) c h = elim (Bool-cases (k == id)) [
  | inl e ↦ rw e (c, h.1)
  | inr e ↦ rw e (h.0, AreCodes-insert id code seen c h.1)
]

AreCodes-lookup :
    (id code : String) (seen : Map String)
    → AreCodes seen
    → lookup id seen ≡ some code
    → IsCode code
unfolding lookup
AreCodes-lookup id code [] h e = cc
AreCodes-lookup id code ((k, v) ∷ seen) h e = elim (Bool-cases (k == id)) [
  | inl same ↦ subst IsCode (some_inj _ _ (rw same at e)) h.0
  | inr other ↦ AreCodes-lookup id code seen h.1 (rw other at e)
]
  where
    some_inj : (a b : String) → some a ≡ some b → a ≡ b
    some_inj a b p = cc

module _ (proof_hash : String → String → String → CodexSnapshot → String) (session : String)
    (meta : SourceMetadata) (parent_proofs : Proofs) (problem : String) (bad : IsCode problem) where
  abbrev IsStep : CodexItem × Walk → Type 0
  IsStep (item, w) = IsCoded item × AreCodes w.seen

  judged_code-IsCode :
      (fingerprint : String) (doubtful : Bool) (item : CodexItem)
      → IsCode (judged_code proof_hash session meta parent_proofs problem fingerprint doubtful item)
  unfolding judged_code
  judged_code-IsCode fingerprint doubtful item = rw bad bad

  coded-IsStep :
      (item : CodexItem) (code : String) (w : Walk)
      → IsCode code
      → AreCodes w.seen
      → IsStep (coded proof_hash session meta parent_proofs problem item code w)
  coded-IsStep item code w c h = (c, AreCodes-insert item.fact.id code w.seen c h)

  judge-IsStep :
      (fingerprint : String) (doubtful : Bool) (item : CodexItem) (w : Walk)
      → AreCodes w.seen
      → IsStep (judge proof_hash session meta parent_proofs problem fingerprint doubtful item w)
  unfolding judge
  judge-IsStep fingerprint doubtful item w h =
      let c = judged_code-IsCode fingerprint doubtful item in
      (c, AreCodes-insert item.fact.id _ w.seen c h)

  compare_totals-IsStep :
      (previous now : Option CodexTokenCounts) (fingerprint : String) (doubtful : Bool)
      (item : CodexItem) (w : Walk)
      → AreCodes w.seen
      → IsStep (
          compare_totals proof_hash session meta parent_proofs problem previous now fingerprint
            doubtful item w)
  compare_totals-IsStep previous none fingerprint doubtful item w h =
      judge-IsStep fingerprint doubtful item w h
  compare_totals-IsStep none (some c) fingerprint doubtful item w h =
      judge-IsStep fingerprint doubtful item (record w { previous_total = some c }) h
  compare_totals-IsStep (some p) (some c) fingerprint doubtful item w h =
      elim (Bool-cases (equal_counts p c)) [
        | inl e ↦ rw e (coded-IsStep item "known_duplicate" w refl h)
        | inr e ↦ rw e (elim (Bool-cases (less_than c p)) [
          | inl f ↦ rw f (coded-IsStep item "stale_snapshot" w refl h)
          | inr f ↦
              rw f (judge-IsStep fingerprint doubtful item (record w { previous_total = some c }) h)
        ])
      ]

  meet_item-IsStep :
      (seen : Option String) (fingerprint : String) (doubtful : Bool) (item : CodexItem) (w : Walk)
      → lookup item.fact.id w.seen ≡ seen
      → AreCodes w.seen
      → IsStep
          (meet_item proof_hash session meta parent_proofs problem seen fingerprint doubtful item w)
  unfolding count_item
  meet_item-IsStep none fingerprint doubtful item w e h =
      let turn = text_or "" item.codex.turn_id in
      let previous =
        if meta.fork && not (turn == w.previous_turn) then none else w.previous_total in
      compare_totals-IsStep previous item.codex.cumulative fingerprint doubtful item
        (record w { previous_total = previous; previous_turn = turn }) h
  meet_item-IsStep (some code) fingerprint doubtful item w e h =
      let c = AreCodes-lookup item.fact.id code w.seen h e in (rw c c, h)

  copy_item-IsStep :
      (m : Map Fact) (fingerprint : String) (item : CodexItem) (w : Walk)
      → AreCodes w.seen
      → IsStep (copy_item proof_hash session meta parent_proofs problem m fingerprint item w)
  copy_item-IsStep [] fingerprint item w h = meet_item-IsStep _ fingerprint false item w refl h
  copy_item-IsStep (one ∷ []) fingerprint item w h = (refl, h)
  copy_item-IsStep (one ∷ two ∷ more) fingerprint item w h =
      meet_item-IsStep _ fingerprint true item w refl h

  -- In a session with a problem every item gets a code, so that none of them is counted.
  pub walk_items-IsCoded :
      (items : List CodexItem) (w : Walk)
      → AreCodes w.seen
      → All IsCoded (walk_items proof_hash session meta parent_proofs problem items w).0
  unfolding walk_items walk_item
  walk_items-IsCoded [] w h = tt
  walk_items-IsCoded (item ∷ items) w h =
      let step =
        copy_item-IsStep
          (inherited session
            (or_empty (lookup (replay_fingerprint proof_hash item.codex) w.proofs)))
          (replay_fingerprint proof_hash item.codex) item w h in
      (step.0, walk_items-IsCoded items _ step.1)
