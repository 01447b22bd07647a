-- ===== src/Processor/Ancestry/Facts.antt =====
-- What holds of the facts of all candidates holds of those that `resolveCodexEvidence` leaves.
use tokeninsights.Prelude.{
  String, List, [], ◌∷◌, some, ◌≡◌, All, All-append, Option-cases, inl, inr,
}
use tokeninsights.Prelude.Maps.{Map, lookup, AllValues, insert-AllValues, lookup-AllValues}
use tokeninsights.Publication.{Fact}
use tokeninsights.Processor.Native.{SourceMetadata}
use tokeninsights.Processor.Session.{CodexSnapshot}
use tokeninsights.Processor.Replay.{CodexItem, sort_items}
use tokeninsights.Processor.Replay.Facts.{
  ItemHolds, ProofsHold, or_empty-AllValues, sort_items-hold, walk_items-hold,
}
use tokeninsights.Processor.Ancestry.{
  Ancestry, Entry, gather, group_items, items_of, meta_of, finish_session, resolve_codex_evidence,
}
use tokeninsights.Processor.Ancestry.Coded.{IsInvariant, resolve_each-keeps}

module _ (P : Fact → Type 0) where
  abbrev pub SessionsHold : Map (List CodexItem) → Type 0
  SessionsHold m = AllValues (All (ItemHolds P)) m

  abbrev AncestryHolds : Ancestry → Type 0
  AncestryHolds a = AllValues (ProofsHold P) a.proofs × SessionsHold a.sessions

  items_of-hold :
      (s : String) (m : Map (List CodexItem))
      → SessionsHold m
      → All (ItemHolds P) (items_of (lookup s m))
  items_of-hold s m h = elim (Option-cases (lookup s m)) [
    | inl missing ↦ rw missing tt
    | inr (is, found) ↦ rw found (lookup-AllValues (All (ItemHolds P)) s m is h found)
  ]

  group_items-hold :
      (is : List CodexItem) (m : Map (List CodexItem))
      → All (ItemHolds P) is
      → SessionsHold m
      → SessionsHold (group_items is m)
  unfolding group_items
  group_items-hold [] m h k = k
  group_items-hold (i ∷ is) m (p, h) k = elim (Option-cases (lookup i.fact.session.native_id m)) [
    | inl missing ↦
        rw missing (group_items-hold is _ h (insert-AllValues (All (ItemHolds P)) _ _ m (p, tt) k))
    | inr (before, found) ↦ rw found (
        group_items-hold is _ h (
          insert-AllValues (All (ItemHolds P)) _ _ m
            (All-append (ItemHolds P) before (i ∷ [])
              (lookup-AllValues (All (ItemHolds P)) _ m before k found) (p, tt))
            k))
  ]

  module _ (metadata : Map SourceMetadata)
      (proof_hash : String → String → String → CodexSnapshot → String) where
    finish_session-AncestryHolds :
        (s problem : String) (a : Ancestry)
        → AncestryHolds a
        → AncestryHolds (finish_session metadata proof_hash s problem a)
    unfolding finish_session
    finish_session-AncestryHolds s problem a (proofs, sessions) =
        let (walked, last) =
          walk_items-hold P proof_hash s (meta_of metadata s) _ _
            (sort_items (items_of (lookup s a.sessions))) _
            (sort_items-hold P _ (items_of-hold s a.sessions sessions))
            (or_empty-AllValues P (AllValues P) s a.proofs proofs) in
        (
          insert-AllValues (ProofsHold P) s _ a.proofs last proofs,
          insert-AllValues (All (ItemHolds P)) s _ a.sessions walked sessions,
        )

    AncestryHolds-IsInvariant : IsInvariant metadata proof_hash AncestryHolds
    AncestryHolds-IsInvariant = record {
      enters = λ s a (proofs, sessions).
          (insert-AllValues (ProofsHold P) s [] a.proofs tt proofs, sessions);
      cycles = λ s a undone h. h;
      adopts = λ s parent a (proofs, sessions). (
        insert-AllValues (ProofsHold P) s _ a.proofs
            (or_empty-AllValues P (AllValues P) parent a.proofs proofs) proofs,
        sessions,
      );
      finishes = λ s problem a h. finish_session-AncestryHolds s problem a h;
    }

  pub resolve_codex_evidence-SessionsHold :
      (proof_hash : String → String → String → CodexSnapshot → String) (entries : List Entry)
      (items : List CodexItem) (a : Ancestry)
      → All (ItemHolds P) items
      → resolve_codex_evidence proof_hash entries items ≡ some a
      → SessionsHold a.sessions
  unfolding resolve_codex_evidence
  resolve_codex_evidence-SessionsHold proof_hash entries items a h e =
      (resolve_each-keeps (gather entries []) proof_hash AncestryHolds
        (AncestryHolds-IsInvariant (gather entries []) proof_hash) _ _ _ a
        (tt, group_items-hold items [] h tt) e).1
