-- ===== src/Processor/Session/Kept.antt =====
-- What the context records of a Codex session leave as it is.
use tokeninsights.Prelude.{
  String, ◌≡◌, refl, ◌∙◌, ◌⊎◌, true, false, List, [], ◌∷◌, Option, none, some, inl, inr, Bool-cases,
  ◌==◌, string_eq, arith,
}
use tokeninsights.Processor.Native.{Fields}
use tokeninsights.Processor.Session.{
  SessionState, meet_session, meet_id, apply_session_meta, apply_turn_context, apply_context,
  apply_contexts,
}

-- A session id once met, a provider once known and what waits for a model stay.
pub record IsKept (s t : SessionState) : Type 0 where
  pub met :
      (s.saw_session_meta ≡ false) ⊎ ((t.saw_session_meta ≡ true) × (t.session_id ≡ s.session_id))
  pub provider : (s.provider ≡ none) ⊎ (t.provider ≡ s.provider)
  pub pending : t.pending ≡ s.pending

IsKept-refl : (s : SessionState) → IsKept s s
IsKept-refl s = record { met = ground arith; provider = inr refl; pending = refl }

IsKept-trans : (s t u : SessionState) → IsKept s t → IsKept t u → IsKept s u
IsKept-trans s t u h k = record {
  met = ground (arith, h.met, k.met);
  provider = ground (arith, h.provider, k.provider);
  pending = k.pending ∙ h.pending;
}

meet_session-IsKept :
    (payload : Fields) (id : String) (s : SessionState) → IsKept s (meet_session payload id s).0
meet_session-IsKept payload id s = record {
  met = ground arith;
  provider = ground arith;
  pending = ground arith;
}

meet_id-IsKept :
    (payload : Fields) (id : Option String) (s : SessionState) → IsKept s (meet_id payload id s).0
meet_id-IsKept payload none s = IsKept-refl s
meet_id-IsKept payload (some id) s = meet_session-IsKept payload id s

apply_context-IsKept :
    (kind : String) (record' : Fields) (s : SessionState) → IsKept s (apply_context kind record' s)
unfolding apply_context apply_session_meta apply_turn_context
apply_context-IsKept kind record' s = elim (Bool-cases (kind == "session_meta")) [
  | inl e ↦ rw e (meet_id-IsKept _ _ s)
  | inr e ↦ rw e (elim (Bool-cases (kind == "turn_context")) [
    | inl f ↦ rw f (unmet s _ (refl, refl, refl, refl))
    | inr f ↦ rw f (elim (Bool-cases (kind == "event_msg")) [
      | inl g ↦ rw g (unmet s _ (refl, refl, refl, refl))
      | inr g ↦ rw g (IsKept-refl s)
    ])
  ])
]
  where
    unmet :
        (s t : SessionState)
        → (t.saw_session_meta ≡ s.saw_session_meta)
          × (t.session_id ≡ s.session_id)
          × (t.provider ≡ s.provider)
          × (t.pending ≡ s.pending)
        → IsKept s t
    unmet s t (saw, id, provider, pending) = record {
      met = ground (arith, saw, id);
      provider = inr provider;
      pending = pending;
    }

-- Whatever context records follow, in any order: a session id once met stays the session's, a
-- provider once known stays, and what waits for a model goes on waiting.
pub apply_contexts-IsKept :
    (records : List (String × Fields)) (s : SessionState) → IsKept s (apply_contexts records s)
unfolding apply_contexts
apply_contexts-IsKept [] s = IsKept-refl s
apply_contexts-IsKept ((kind, record') ∷ more) s =
    IsKept-trans s (apply_context kind record' s) _ (apply_context-IsKept kind record' s)
      (apply_contexts-IsKept more (apply_context kind record' s))
