-- ===== src/Processor/Ancestry/Keys.antt =====
-- What holds of all sessions that `resolveCodexEvidence` goes through holds of the session of every candidate.
use tokeninsights.Prelude.{
  String, sym, subst, List, [], ◌∷◌, All, ◌==◌, string_eq, inl, inr, Bool-cases, eq_iff, map, codes,
}
use tokeninsights.Prelude.Maps.{Map, insert}
use tokeninsights.CollectorProgress.Snapshot.{codes_lt}
use tokeninsights.Processor.Replay.{CodexItem}
use tokeninsights.Processor.Ancestry.{group_items, place_key, sort_keys}

module _ (P : String → Type 0) where
  All-of-place_key : (k : String) (ks : List String) → All P (place_key k ks) → P k × All P ks
  unfolding place_key
  All-of-place_key k [] h = h
  All-of-place_key k (j ∷ js) h = elim (Bool-cases (codes_lt (codes j) (codes k))) [
    | inl e ↦
        let (p, rest) = rw e at h in let (q, more) = All-of-place_key k js rest in (q, (p, more))
    | inr e ↦ rw e at h
  ]

  pub All-of-sort_keys : (ks : List String) → All P (sort_keys ks) → All P ks
  unfolding sort_keys
  All-of-sort_keys [] h = tt
  All-of-sort_keys (k ∷ ks) h =
      let (p, rest) = All-of-place_key k (sort_keys ks) h in (p, All-of-sort_keys ks rest)

  All-of-insert :
      (k : String) (v : List CodexItem) (m : Map (List CodexItem))
      → All P (map (λ s. s.0) (insert k v m))
      → P k × All P (map (λ s. s.0) m)
  unfolding insert
  All-of-insert k v [] h = (h.0, tt)
  All-of-insert k v ((j, w) ∷ m) h = elim (Bool-cases (j == k)) [
    | inl e ↦
        let (p, rest) : P k × All P (map (λ s. s.0) m) = rw e at h in
        (p, (subst P (sym ((eq_iff j k).0 e)) p, rest))
    | inr e ↦
        let (p, rest) : P j × All P (map (λ s. s.0) (insert k v m)) = rw e at h in
        let (q, more) = All-of-insert k v m rest in (q, (p, more))
  ]

  pub All-of-group_items :
      (items : List CodexItem) (m : Map (List CodexItem))
      → All P (map (λ s. s.0) (group_items items m))
      → All (λ i. P i.fact.session.native_id) items × All P (map (λ s. s.0) m)
  unfolding group_items
  All-of-group_items [] m h = (tt, h)
  All-of-group_items (i ∷ is) m h =
      let (rest, more) = All-of-group_items is _ h in
      let (p, before) = All-of-insert i.fact.session.native_id _ m more in ((p, rest), before)
