-- ===== src/Processor/Event/Pending.antt =====
-- Token counts that wait for their model.
use tokeninsights.Prelude.{
  String, ◌≡◌, refl, true, not, List, [], ◌∷◌, Option, none, some, is_none, arith,
}
use tokeninsights.Prelude.Int.{ℤ}
use tokeninsights.Processor.Native.{Fields, fields_of, nested, string_field}
use tokeninsights.Processor.Session.{
  CodexSnapshot, CodexCandidate, PendingFact, SessionState, apply_turn_context,
}
use tokeninsights.Processor.Snapshot.{set_message_id, identify}
use tokeninsights.Processor.Event.{flush_items, flush_pending, resolve_pending}

module _ (snapshot_hash : CodexSnapshot → String) where
  -- What is flushed of a fact that waits.
  abbrev pub IsFlushed : Option String → PendingFact → CodexCandidate → Type 0
  IsFlushed model p c =
      (c.fact.model ≡ model)
      × (c.fact.session_id ≡ p.candidate.fact.session_id)
      × (c.fact.occurred_at_ms ≡ p.candidate.fact.occurred_at_ms)
      × (c.snapshot ≡ p.candidate.snapshot)

  -- The one after the other, in order.
  abbrev pub AreFlushed : Option String → List PendingFact → List CodexCandidate → Type 0
  AreFlushed model [] [] = Unit
  AreFlushed model (p ∷ ps) (c ∷ cs) = IsFlushed model p c × AreFlushed model ps cs
  AreFlushed model [] (c ∷ cs) = ⊥
  AreFlushed model (p ∷ ps) [] = ⊥

  record IsIdentified (c d : CodexCandidate) : Type 0 where
    model : d.fact.model ≡ c.fact.model
    session : d.fact.session_id ≡ c.fact.session_id
    time : d.fact.occurred_at_ms ≡ c.fact.occurred_at_ms
    snapshot : d.snapshot ≡ c.snapshot

  identify-IsIdentified :
      (at' : Option ℤ) (c : CodexCandidate) → IsIdentified c (identify snapshot_hash at' c)
  identify-IsIdentified none c = record {
    model = refl;
    session = refl;
    time = refl;
    snapshot = refl;
  }
  identify-IsIdentified (some at') c = record {
    model = refl;
    session = refl;
    time = refl;
    snapshot = refl;
  }

  flush_items-AreFlushed :
      (s : SessionState) (ps : List PendingFact)
      → AreFlushed s.model ps (flush_items snapshot_hash true s ps).0
  unfolding flush_items resolve_pending set_message_id
  flush_items-AreFlushed s [] = tt
  flush_items-AreFlushed s (p ∷ ps) =
      let kept = identify-IsIdentified p.candidate.fact.occurred_at_ms _ in
      ((kept.model, kept.session, kept.time, kept.snapshot), flush_items-AreFlushed s ps)

  turn_model :
      (turn : Fields) (s : SessionState) (m : String)
      → string_field (fields_of (nested (some turn) "payload")) "model" ≡ some m
      → ((apply_turn_context turn s).model ≡ some m)
        × ((apply_turn_context turn s).pending ≡ s.pending)
  unfolding apply_turn_context
  turn_model turn s m h = (ground (arith, h), refl)

  -- Once a turn context names a model, every token count that waits is emitted, in order, with
  -- that model and its own session, time and snapshot, and nothing waits any more.
  pub flush_pending-AreFlushed :
      (turn : Fields) (s : SessionState) (m : String)
      → string_field (fields_of (nested (some turn) "payload")) "model" ≡ some m
      → let t = apply_turn_context turn s in
        let (u, candidates, _) = flush_pending snapshot_hash (not (is_none t.model)) t in
        (u.pending ≡ []) × AreFlushed (some m) s.pending candidates
  unfolding flush_pending apply_turn_context
  flush_pending-AreFlushed turn s m h =
      let (model, pending) = turn_model turn s m h in
      rw model (
        refl,
        rw (model, pending) at
            (flush_items-AreFlushed (apply_turn_context turn s)
              (apply_turn_context turn s).pending),
      )
