-- ===== src/Processor/Ancestry/Rooted.antt =====
-- Which sessions of Codex are resolved without a problem.
use tokeninsights.Prelude.{
  ℕ, zero, suc, String, ◌≡◌, refl, ◌∙◌, subst, Bool, true, false, not, ◌&&◌, ◌||◌, List, [], ◌∷◌,
  some, is_none, ◌==◌, string_eq, if◌then◌else◌, inl, inr, Bool-cases, Option-cases, arith, eq_iff,
  ◌⊎◌,
}
use tokeninsights.Prelude.Maps.{Map, lookup, insert, lookup-insert}
use tokeninsights.Processor.Native.{SourceMetadata}
use tokeninsights.Processor.Session.{CodexSnapshot}
use tokeninsights.Processor.Replay.{CodexItem}
use tokeninsights.Processor.Ancestry.Finished.{
  none-apart, some_inj, apart, is_done, problem_of, IsFinished, finish_session-IsFinished,
}
use tokeninsights.Processor.Ancestry.{
  Ancestry, Entry, gather, resolve_codex_evidence, flag, meta_of, has_parent, own_problem,
  finish_session, inherit, enter, resolve, resolve_each,
}

and_false : (p q : Bool) → q ≡ false → (p && q) ≡ false
and_false p q h = ground (arith, h)

-- The problem of a session that is no fork without a parent.
abbrev lone_problem : Bool → Bool → String
lone_problem conflict missing =
    if conflict then "conflicting_parent" else if missing then "missing_session_context" else ""

-- A parent without a problem that is not being visited.
no_clash :
    (empty visited : Bool) → (not empty || visited) ≡ false → (empty ≡ false) ⊎ (visited ≡ true) → ⊥
no_clash empty visited h k = ground (arith, h, k)

undone_clash :
    (finished visited : Bool)
    → finished ≡ false
    → (finished ≡ true) ⊎ (visited ≡ true)
    → visited ≡ true
undone_clash finished visited h k = ground (arith, h, k)

module _ (metadata : Map SourceMetadata) where
  -- A session whose line of parents ends: its metadata are there, in one way, and it is no fork,
  -- or the parent that they name is such a session. There is no such line through a cycle.
  pub data Rooted : String → Type 0 where
    root :
        (session : String)
        → is_none (lookup session metadata) ≡ false
        → (meta_of metadata session).conflict ≡ false
        → (meta_of metadata session).fork ≡ false
        → Rooted session
    child :
        (session : String)
        → is_none (lookup session metadata) ≡ false
        → (meta_of metadata session).conflict ≡ false
        → Rooted (meta_of metadata session).parent_id
        → Rooted session

  -- A session done has a problem or is rooted.
  abbrev pub AreRooted : Ancestry → Type 0
  AreRooted a =
      (session : String)
      → (is_done a session ≡ false) ⊎ ((problem_of a session == "") ≡ false) ⊎ Rooted session

  own_rest :
      (session : String)
      → (is_none (lookup session metadata) ≡ false
          → (meta_of metadata session).conflict ≡ false
          → Rooted session)
      → ((lone_problem (meta_of metadata session).conflict (is_none (lookup session metadata))
            == "")
          ≡ false)
        ⊎ Rooted session
  own_rest session k = elim (Bool-cases (meta_of metadata session).conflict) [
    | inl conflict ↦ inl (rw conflict)
    | inr clean ↦ rw clean (elim (Bool-cases (is_none (lookup session metadata))) [
      | inl missing ↦ inl (rw missing)
      | inr there ↦ inr (k there clean)
    ])
  ]

  own_problem_root :
      (session : String)
      → has_parent metadata session ≡ false
      → ((own_problem metadata session == "") ≡ false) ⊎ Rooted session
  unfolding own_problem
  own_problem_root session h = elim (Bool-cases (meta_of metadata session).fork) [
    | inl fork ↦ inl (rw (fork, h))
    | inr no_fork ↦ rw no_fork (own_rest session (λ there clean. root session there clean no_fork))
  ]

  own_problem_child :
      (session : String)
      → has_parent metadata session ≡ true
      → Rooted (meta_of metadata session).parent_id
      → ((own_problem metadata session == "") ≡ false) ⊎ Rooted session
  unfolding own_problem
  own_problem_child session h r = rw h (elim (Bool-cases (meta_of metadata session).fork) [
    | inl fork ↦ rw fork (own_rest session (λ there clean. child session there clean r))
    | inr no_fork ↦ rw no_fork (own_rest session (λ there clean. child session there clean r))
  ])

  module _ (proof_hash : String → String → String → CodexSnapshot → String) where
    finish_session-AreRooted :
        (session problem : String) (a : Ancestry)
        → AreRooted a
        → ((problem == "") ≡ false) ⊎ Rooted session
        → AreRooted (finish_session metadata proof_hash session problem a)
    finish_session-AreRooted session problem a r h s =
        let f = finish_session-IsFinished metadata proof_hash session problem a in
        elim (Bool-cases (session == s)) [
          | inr other ↦ rw (f.others_done s other, f.others_problem s other) (r s)
          | inl same ↦ subst Fits ((eq_iff session s).0 same) (own f)
        ]
      where
        Fits : String → Type 0
        Fits s =
            (is_done (finish_session metadata proof_hash session problem a) s ≡ false)
            ⊎ ((problem_of (finish_session metadata proof_hash session problem a) s == "") ≡ false)
            ⊎ Rooted s

        own :
            IsFinished metadata proof_hash session problem a
              (finish_session metadata proof_hash session problem a)
            → Fits session
        own f = elim h [
          | inl bad ↦ inr (inl (f.problem_noted ∙ and_false _ _ bad))
          | inr rooted ↦ inr (inr rooted)
        ]

    -- After a call the session is done, or its own call goes on.
    abbrev IsResolved : String → Ancestry → Type 0
    IsResolved session b =
        AreRooted b × ((is_done b session ≡ true) ⊎ (flag (lookup session b.visiting) ≡ true))

    finish_session-IsResolved :
        (session problem : String) (a : Ancestry)
        → AreRooted a
        → ((problem == "") ≡ false) ⊎ Rooted session
        → IsResolved session (finish_session metadata proof_hash session problem a)
    finish_session-IsResolved session problem a r h = (
      finish_session-AreRooted session problem a r h,
      inl (finish_session-IsFinished metadata proof_hash session problem a).finished,
    )

    inherit-IsResolved :
        (session : String) (b : Ancestry)
        → has_parent metadata session ≡ true
        → IsResolved (meta_of metadata session).parent_id b
        → IsResolved session
            (inherit metadata proof_hash session (meta_of metadata session).parent_id b)
    inherit-IsResolved session b h (r, ended) =
        elim (Bool-cases (not (problem_of b parent == "") || flag (lookup parent b.visiting))) [
          | inl bad ↦ rw bad (finish_session-IsResolved session "unresolved_parent" b r (inl refl))
          | inr good ↦ rw good (
              finish_session-IsResolved session (own_problem metadata session) _ r
                (own_problem_child session h (rooted good (r parent) ended)))
        ]
      where
        parent : String
        parent = (meta_of metadata session).parent_id

        rooted :
            (not (problem_of b parent == "") || flag (lookup parent b.visiting)) ≡ false
            → (is_done b parent ≡ false) ⊎ ((problem_of b parent == "") ≡ false) ⊎ Rooted parent
            → (is_done b parent ≡ true) ⊎ (flag (lookup parent b.visiting) ≡ true)
            → Rooted parent
        rooted good (inl undone) ended =
            absurd
              (no_clash (problem_of b parent == "") _ good (inr (undone_clash _ _ undone ended)))
        rooted good (inr (inl bad)) ended =
            absurd (no_clash _ (flag (lookup parent b.visiting)) good (inl bad))
        rooted good (inr (inr root')) ended = root'

    visiting-AreRooted :
        (session : String) (a : Ancestry)
        → AreRooted a
        → is_done a session ≡ false
        → AreRooted (record a { problems = insert session "ancestry_cycle" a.problems })
    visiting-AreRooted session a r undone s = elim (Bool-cases (session == s)) [
      | inl same ↦ inl (subst (λ t. is_done a t ≡ false) ((eq_iff session s).0 same) undone)
      | inr other ↦ rw (lookup-insert, other) (r s)
    ]

    resolve-IsResolved :
        (fuel : ℕ) (session : String) (a b : Ancestry)
        → AreRooted a
        → resolve metadata proof_hash fuel session a ≡ some b
        → IsResolved session b
    unfolding resolve
    resolve-IsResolved zero session a b r h = cc
    resolve-IsResolved (suc fuel) session a b r h = elim (Bool-cases (is_done a session)) [
      | inl finished ↦
          subst (IsResolved session) (some_inj _ _ (rw finished at h)) (r, inl finished)
      | inr undone ↦ elim (Bool-cases (flag (lookup session a.visiting))) [
        | inl visited ↦
            subst (IsResolved session) (some_inj _ _ (rw (undone, visited) at h))
              (visiting-AreRooted session a r undone, inr visited)
        | inr fresh ↦ elim (Bool-cases (has_parent metadata session)) [
          | inr alone ↦ subst (IsResolved session) (some_inj _ _ (rw (undone, fresh, alone) at h)) (
              finish_session-IsResolved session (own_problem metadata session)
                (enter metadata proof_hash session a) r (own_problem_root session alone))
          | inl child' ↦
              elim (Option-cases (
                resolve metadata proof_hash fuel (meta_of metadata session).parent_id
                  (enter metadata proof_hash session a))) [
                    | inl stuck ↦ absurd (none-apart _ (rw (undone, fresh, child', stuck) at h))
                    | inr (c, up) ↦
                        subst (IsResolved session)
                          (some_inj _ _ (rw (undone, fresh, child', up) at h))
                          (inherit-IsResolved session c child' (
                            resolve-IsResolved fuel _ (enter metadata proof_hash session a) c r up))
                  ]
        ]
      ]
    ]

    resolve_each-AreRooted :
        (fuel : ℕ) (keys : List String) (a b : Ancestry)
        → AreRooted a
        → resolve_each metadata proof_hash fuel keys a ≡ some b
        → AreRooted b
    unfolding resolve_each
    resolve_each-AreRooted fuel [] a b r h = subst AreRooted (some_inj _ _ h) r
    resolve_each-AreRooted fuel (key ∷ keys) a b r h =
        elim (Option-cases (resolve metadata proof_hash fuel key a)) [
          | inl stuck ↦ absurd (none-apart _ (rw (stuck, resolve_each) at h))
          | inr (c, e) ↦
              resolve_each-AreRooted fuel keys c b (resolve-IsResolved fuel key a c r e).0
                (rw (e, resolve_each) at h)
        ]

-- A session that `resolveCodexEvidence` leaves without a problem has a line of parents that ends:
-- every session on it has metadata without a conflict, and none comes twice, as the line is
-- finite.
pub resolve_codex_evidence-Rooted :
    (proof_hash : String → String → String → CodexSnapshot → String) (entries : List Entry)
    (items : List CodexItem) (a : Ancestry) (session : String)
    → resolve_codex_evidence proof_hash entries items ≡ some a
    → is_done a session ≡ true
    → problem_of a session ≡ ""
    → Rooted (gather entries []) session
unfolding resolve_codex_evidence lookup
resolve_codex_evidence-Rooted proof_hash entries items a session h finished clean =
    rooted (resolve_each-AreRooted (gather entries []) proof_hash _ _ _ a (λ s. inl refl) h session)
  where
    rooted :
        (is_done a session ≡ false)
          ⊎ ((problem_of a session == "") ≡ false)
          ⊎ Rooted (gather entries []) session
        → Rooted (gather entries []) session
    rooted (inl undone) = absurd (apart (is_done a session) finished undone)
    rooted (inr (inl bad)) =
        absurd (apart (problem_of a session == "") ((eq_iff (problem_of a session) "").1 clean) bad)
    rooted (inr (inr r)) = r
