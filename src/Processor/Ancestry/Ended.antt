-- ===== src/Processor/Ancestry/Ended.antt =====
-- Every session of Codex is resolved: the fuel of `resolveCodexEvidence` is enough.
use tokeninsights.Prelude.{
  ℕ, zero, suc, ◌+◌, ◌≤◌, ◌<◌, String, ◌≡◌, refl, sym, ◌∙◌, subst, Bool, true, false, not, ◌||◌,
  List, [], ◌∷◌, some, is_none, length, All, ◌==◌, string_eq, if◌then◌else◌, inl, inr, Bool-cases,
  Option-cases, arith, eq_iff, ◌⊎◌, map,
}
use tokeninsights.Prelude.Maps.{Map, lookup, insert, lookup-insert}
use tokeninsights.Processor.Native.{SourceMetadata}
use tokeninsights.Processor.Session.{CodexSnapshot}
use tokeninsights.Processor.Replay.{CodexItem}
use tokeninsights.Processor.Ancestry.Finished.{is_done, problem_of, finish_session-IsFinished}
use tokeninsights.Processor.Ancestry.Keys.{All-of-sort_keys, All-of-group_items}
use tokeninsights.Processor.Ancestry.{
  Ancestry, Entry, gather, group_items, sort_keys, resolve_codex_evidence, flag, meta_of,
  has_parent, own_problem, finish_session, inherit, enter, resolve, resolve_each,
}

false_or_true : (b : Bool) → (b ≡ false) ⊎ (b ≡ true)
false_or_true true = inr refl
false_or_true false = inl refl

-- The sessions of the metadata that are not being visited.
unvisited : Map SourceMetadata → Map Bool → ℕ
unvisited [] visiting = 0
unvisited ((s, m) ∷ rest) visiting =
    (if flag (lookup s visiting) then 0 else 1) + unvisited rest visiting

unvisited-le-length : (m : Map SourceMetadata) (v : Map Bool) → unvisited m v ≤ length m
unfolding unvisited
unvisited-le-length [] v = omega arith
unvisited-le-length ((s, _) ∷ m) v = ground (arith, unvisited-le-length m v)

unvisited-le :
    (session : String) (m : Map SourceMetadata) (v : Map Bool)
    → unvisited m (insert session true v) ≤ unvisited m v
unfolding unvisited
unvisited-le session [] v = omega arith
unvisited-le session ((s, _) ∷ m) v =
    ground (arith, unvisited-le session m v, lookup-insert session s true v)

unvisited-lt :
    (session : String) (m : Map SourceMetadata) (v : Map Bool)
    → is_none (lookup session m) ≡ false
    → flag (lookup session v) ≡ false
    → unvisited m (insert session true v) < unvisited m v
unfolding unvisited lookup
unvisited-lt session [] v there fresh = ground arith
unvisited-lt session ((s, _) ∷ m) v there fresh = ground (
  arith,
  unvisited-le session m v,
  unvisited-lt session m v,
  lookup-insert session s true v,
  eq_iff session s,
  eq_iff s session,
)

module _ (metadata : Map SourceMetadata) where
  has_parent_there :
      (session : String)
      → has_parent metadata session ≡ true
      → is_none (lookup session metadata) ≡ false
  unfolding has_parent
  has_parent_there session h = elim (Option-cases (lookup session metadata)) [
    | inl e ↦ cc (rw e at h)
    | inr (m, e) ↦ rw e
  ]

  -- A call that ends leaves as many sessions being visited as there were, and none undone; its
  -- own session is done unless its own call goes on.
  record IsEnded (session : String) (a b : Ancestry) : Type 0 where
    same_visiting : (s : String) → flag (lookup s b.visiting) ≡ flag (lookup s a.visiting)
    still_done : (s : String) → (is_done a s ≡ false) ⊎ (is_done b s ≡ true)
    ended : (is_done b session ≡ true) ⊎ (flag (lookup session a.visiting) ≡ true)

  module _ (proof_hash : String → String → String → CodexSnapshot → String) where
    finish_session-IsEnded :
        (session problem : String) (a c : Ancestry)
        → flag (lookup session a.visiting) ≡ false
        → ((s : String)
            → flag (lookup s c.visiting) ≡ flag (lookup s (insert session true a.visiting)))
        → ((s : String) → (is_done a s ≡ false) ⊎ (is_done c s ≡ true))
        → IsEnded session a (finish_session metadata proof_hash session problem c)
    finish_session-IsEnded session problem a c fresh visiting done' =
        let f = finish_session-IsFinished metadata proof_hash session problem c in
        record {
          same_visiting = λ s. elim (Bool-cases (session == s)) [
            | inl same ↦
                subst
                  (λ t.
                    flag (lookup t (finish_session metadata proof_hash session problem c).visiting)
                    ≡ flag (lookup t a.visiting))
                  ((eq_iff session s).0 same) (f.left ∙ sym fresh)
            | inr other ↦ f.others_visiting s other ∙ visiting s ∙ rw (lookup-insert, other)
          ];
          still_done = λ s. elim (Bool-cases (session == s)) [
            | inl same ↦ inr (
                subst (λ t. is_done (finish_session metadata proof_hash session problem c) t ≡ true)
                  ((eq_iff session s).0 same) f.finished)
            | inr other ↦ rw (f.others_done s other) (done' s)
          ];
          ended = inl f.finished;
        }

    inherit-IsEnded :
        (session : String) (a c : Ancestry)
        → flag (lookup session a.visiting) ≡ false
        → IsEnded (meta_of metadata session).parent_id (enter metadata proof_hash session a) c
        → IsEnded session a
            (inherit metadata proof_hash session (meta_of metadata session).parent_id c)
    inherit-IsEnded session a c fresh e =
        elim (Bool-cases (not (problem_of c parent == "") || flag (lookup parent c.visiting))) [
          | inl bad ↦ rw bad (
              finish_session-IsEnded session "unresolved_parent" a c fresh e.same_visiting
                e.still_done)
          | inr good ↦ rw good (
              finish_session-IsEnded session (own_problem metadata session) a _ fresh
                e.same_visiting e.still_done)
        ]
      where
        parent : String
        parent = (meta_of metadata session).parent_id

    resolve-IsEnded :
        (fuel : ℕ) (session : String) (a : Ancestry)
        → unvisited metadata a.visiting < fuel
        → (b : Ancestry) × (resolve metadata proof_hash fuel session a ≡ some b)
          × IsEnded session a b
    unfolding resolve
    resolve-IsEnded zero session a h = elim h [ ]
    resolve-IsEnded (suc fuel) session a h = elim (Bool-cases (is_done a session)) [
      | inl finished ↦ rw finished (
        a,
        refl,
        record {
          same_visiting = λ s. refl;
          still_done = λ s. false_or_true (is_done a s);
          ended = inl finished;
        },
      )
      | inr undone ↦ rw undone (elim (Bool-cases (flag (lookup session a.visiting))) [
        | inl visited ↦ rw visited (
          _,
          refl,
          record {
            same_visiting = λ s. refl;
            still_done = λ s. false_or_true (is_done a s);
            ended = inr visited;
          },
        )
        | inr fresh ↦ rw fresh (elim (Bool-cases (has_parent metadata session)) [
          | inr alone ↦ rw alone (
            _,
            refl,
            finish_session-IsEnded session (own_problem metadata session) a _ fresh (λ s. refl)
                (λ s. false_or_true (is_done a s)),
          )
          | inl child ↦
              let (c, up, e) =
                resolve-IsEnded fuel (meta_of metadata session).parent_id
                  (enter metadata proof_hash session a)
                  (omega (
                    arith,
                    h,
                    unvisited-lt session metadata a.visiting (has_parent_there session child) fresh,
                  )) in
              rw (child, up) (_, refl, inherit-IsEnded session a c fresh e)
        ])
      ])
    ]

    -- What a run over keys leaves.
    record AreEnded (keys : List String) (a b : Ancestry) : Type 0 where
      none_visited : (s : String) → flag (lookup s b.visiting) ≡ false
      still_done : (s : String) → (is_done a s ≡ false) ⊎ (is_done b s ≡ true)
      all_done : All (λ s. is_done b s ≡ true) keys

    resolve_each-AreEnded :
        (fuel : ℕ) (keys : List String) (a : Ancestry)
        → length metadata < fuel
        → ((s : String) → flag (lookup s a.visiting) ≡ false)
        → (b : Ancestry) × (resolve_each metadata proof_hash fuel keys a ≡ some b)
          × AreEnded keys a b
    unfolding resolve_each
    resolve_each-AreEnded fuel [] a h free = (
      a,
      refl,
      record { none_visited = free; still_done = λ s. false_or_true (is_done a s); all_done = tt },
    )
    resolve_each-AreEnded fuel (key ∷ keys) a h free =
        let (c, e, one) =
          resolve-IsEnded fuel key a (omega (arith, h, unvisited-le-length metadata a.visiting)) in
        let (b, e', rest) =
          resolve_each-AreEnded fuel keys c h (λ s. one.same_visiting s ∙ free s) in
        (
          b,
          rw (e, resolve_each) e',
          record {
            none_visited = rest.none_visited;
            still_done = λ s.
                later (is_done a s) (is_done c s) (is_done b s) (one.still_done s)
                  (rest.still_done s);
            all_done = (
              first (is_done c key) (is_done b key) (flag (lookup key a.visiting)) one.ended
                  (free key) (rest.still_done key),
              rest.all_done,
            );
          },
        )
      where
        later :
            (x y z : Bool)
            → (x ≡ false) ⊎ (y ≡ true)
            → (y ≡ false) ⊎ (z ≡ true)
            → (x ≡ false) ⊎ (z ≡ true)
        later x y z h k = ground (arith, h, k)

        first :
            (y z v : Bool)
            → (y ≡ true) ⊎ (v ≡ true)
            → v ≡ false
            → (y ≡ false) ⊎ (z ≡ true)
            → z ≡ true
        first y z v h f k = ground (arith, h, f, k)

-- `resolveCodexEvidence` ends, whatever references the metadata hold, and resolves the session of
-- every candidate.
pub resolve_codex_evidence_ends_lem :
    (proof_hash : String → String → String → CodexSnapshot → String) (entries : List Entry)
    (items : List CodexItem)
    → (a : Ancestry) × (resolve_codex_evidence proof_hash entries items ≡ some a)
      × All (λ i. is_done a i.fact.session.native_id ≡ true) items
unfolding resolve_codex_evidence lookup
resolve_codex_evidence_ends_lem proof_hash entries items =
    let (a, e, r) =
      resolve_each-AreEnded (gather entries []) proof_hash (length (gather entries []) + 1)
        (sort_keys (map (λ s. s.0) (group_items items []))) _ (omega arith) (λ s. refl) in
    (
      a,
      e,
      (All-of-group_items (λ s. is_done a s ≡ true) items []
          (All-of-sort_keys (λ s. is_done a s ≡ true) _ r.all_done)).0,
    )
