-- ===== src/Processor/Ancestry/Coded.antt =====
-- What becomes of the candidates of a session of Codex with a problem.
use tokeninsights.Prelude.{
  ℕ, zero, suc, String, ◌≡◌, refl, subst, true, false, not, ◌||◌, List, [], ◌∷◌, some, All, ◌==◌,
  string_eq, if◌then◌else◌, inl, inr, Bool-cases, Option-cases, eq_iff, ◌⊎◌, ◌≢◌,
}
use text.Mathlib.TextPositions.{eq_refl}
use tokeninsights.Prelude.Maps.{Map, lookup, insert, lookup-insert}
use tokeninsights.Processor.Native.{SourceMetadata}
use tokeninsights.Processor.Session.{CodexSnapshot}
use tokeninsights.Processor.Replay.{CodexItem, or_empty}
use tokeninsights.Processor.Replay.Coded.{IsCoded, walk_items-IsCoded}
use tokeninsights.Processor.Ancestry.Finished.{
  none-apart, some_inj, apart, is_done, problem_of, finish_session-IsFinished,
}
use tokeninsights.Processor.Ancestry.{
  Ancestry, Entry, gather, items_of, resolve_codex_evidence, flag, meta_of, has_parent, own_problem,
  finish_session, inherit, enter, resolve, resolve_each,
}

module _ (metadata : Map SourceMetadata)
    (proof_hash : String → String → String → CodexSnapshot → String) where
  -- What every step of `resolve` keeps, its calls keep.
  pub record IsInvariant (P : Ancestry → Type 0) : Type 0 where
    pub enters : (s : String) (a : Ancestry) → P a → P (enter metadata proof_hash s a)
    pub cycles :
        (s : String) (a : Ancestry)
        → is_done a s ≡ false
        → P a
        → P (record a { problems = insert s "ancestry_cycle" a.problems })
    pub adopts :
        (s parent : String) (a : Ancestry)
        → P a
        → P (record a { proofs = insert s (or_empty (lookup parent a.proofs)) a.proofs })
    pub finishes :
        (s problem : String) (a : Ancestry)
        → P a
        → P (finish_session metadata proof_hash s problem a)

  module _ (P : Ancestry → Type 0) (keeps : IsInvariant P) where
    inherit-keeps :
        (session parent : String) (a : Ancestry)
        → P a
        → P (inherit metadata proof_hash session parent a)
    inherit-keeps session parent a p =
        elim (Bool-cases (not (problem_of a parent == "") || flag (lookup parent a.visiting))) [
          | inl bad ↦ rw bad (keeps.finishes session "unresolved_parent" a p)
          | inr good ↦ rw good (
              keeps.finishes session (own_problem metadata session) _
                (keeps.adopts session parent a p))
        ]

    resolve-keeps :
        (fuel : ℕ) (session : String) (a b : Ancestry)
        → P a
        → resolve metadata proof_hash fuel session a ≡ some b
        → P b
    unfolding resolve
    resolve-keeps zero session a b p h = absurd (none-apart b h)
    resolve-keeps (suc fuel) session a b p h = elim (Bool-cases (is_done a session)) [
      | inl finished ↦ subst P (some_inj _ _ (rw finished at h)) p
      | inr undone ↦ elim (Bool-cases (flag (lookup session a.visiting))) [
        | inl visited ↦
            subst P (some_inj _ _ (rw (undone, visited) at h)) (keeps.cycles session a undone p)
        | inr fresh ↦ elim (Bool-cases (has_parent metadata session)) [
          | inr alone ↦
              subst P (some_inj _ _ (rw (undone, fresh, alone) at h))
                (keeps.finishes session (own_problem metadata session) _ (keeps.enters session a p))
          | inl child ↦
              elim (Option-cases (
                resolve metadata proof_hash fuel (meta_of metadata session).parent_id
                  (enter metadata proof_hash session a))) [
                    | inl stuck ↦ absurd (none-apart b (rw (undone, fresh, child, stuck) at h))
                    | inr (c, up) ↦ subst P (some_inj _ _ (rw (undone, fresh, child, up) at h)) (
                        inherit-keeps session (meta_of metadata session).parent_id c (
                          resolve-keeps fuel _ (enter metadata proof_hash session a) c
                            (keeps.enters session a p) up))
                  ]
        ]
      ]
    ]

    pub resolve_each-keeps :
        (fuel : ℕ) (keys : List String) (a b : Ancestry)
        → P a
        → resolve_each metadata proof_hash fuel keys a ≡ some b
        → P b
    unfolding resolve_each
    resolve_each-keeps fuel [] a b p h = subst P (some_inj _ _ h) p
    resolve_each-keeps fuel (key ∷ keys) a b p h =
        elim (Option-cases (resolve metadata proof_hash fuel key a)) [
          | inl stuck ↦ absurd (none-apart b (rw (stuck, resolve_each) at h))
          | inr (c, e) ↦
              resolve_each-keeps fuel keys c b (resolve-keeps fuel key a c p e)
                (rw (e, resolve_each) at h)
        ]

  abbrev SessionIsCoded : Ancestry → String → Type 0
  SessionIsCoded a s =
      (is_done a s ≡ false)
      ⊎ ((problem_of a s == "") ≡ true)
      ⊎ All IsCoded (items_of (lookup s a.sessions))

  abbrev AreCoded : Ancestry → Type 0
  AreCoded a = (s : String) → SessionIsCoded a s

  finish_session-own :
      (session problem : String) (a : Ancestry)
      → SessionIsCoded (finish_session metadata proof_hash session problem a) session
  unfolding finish_session
  finish_session-own session problem a = elim (Bool-cases (final == "")) [
    | inl good ↦ inr (inl (rw noted good))
    | inr bad ↦ inr (
        inr (
          rw (lookup-insert, eq_refl)
            (walk_items-IsCoded proof_hash session (meta_of metadata session) _ final bad _ _ tt)))
  ]
    where
      final : String
      final = if not (problem_of a session == "") then problem_of a session else problem

      noted : problem_of (finish_session metadata proof_hash session problem a) session ≡ final
      noted = rw (lookup-insert, eq_refl)

  AreCoded-IsInvariant : IsInvariant AreCoded
  AreCoded-IsInvariant = record {
    enters = λ s a p. p;
    cycles = λ s a undone p t. elim (Bool-cases (s == t)) [
      | inl same ↦ inl (subst (λ r. is_done a r ≡ false) ((eq_iff s t).0 same) undone)
      | inr other ↦ rw (lookup-insert, other) (p t)
    ];
    adopts = λ s parent a p. p;
    finishes = λ s problem a p t. elim (Bool-cases (s == t)) [
      | inl same ↦
          subst (SessionIsCoded (finish_session metadata proof_hash s problem a))
            ((eq_iff s t).0 same) (finish_session-own s problem a)
      | inr other ↦
          let f = finish_session-IsFinished metadata proof_hash s problem a in
          rw (f.others_done t other, f.others_problem t other, f.others_sessions t other) (p t)
    ];
  }

-- Every candidate of a session that `resolveCodexEvidence` leaves with a problem has a code, so
-- that none of its usage is counted.
pub resolve_codex_evidence-IsCoded :
    (proof_hash : String → String → String → CodexSnapshot → String) (entries : List Entry)
    (items : List CodexItem) (a : Ancestry) (session : String)
    → resolve_codex_evidence proof_hash entries items ≡ some a
    → is_done a session ≡ true
    → problem_of a session ≢ ""
    → All IsCoded (items_of (lookup session a.sessions))
unfolding resolve_codex_evidence lookup
resolve_codex_evidence-IsCoded proof_hash entries items a session h finished bad = coded (
    resolve_each-keeps (gather entries []) proof_hash (AreCoded (gather entries []) proof_hash)
      (AreCoded-IsInvariant (gather entries []) proof_hash) _ _ _ a (λ s. inl refl) h session)
  where
    coded :
        SessionIsCoded (gather entries []) proof_hash a session
        → All IsCoded (items_of (lookup session a.sessions))
    coded (inl undone) = absurd (apart (is_done a session) finished undone)
    coded (inr (inl good)) = absurd (bad ((eq_iff (problem_of a session) "").0 good))
    coded (inr (inr c)) = c
