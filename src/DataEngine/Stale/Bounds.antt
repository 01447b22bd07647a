-- ===== src/DataEngine/Stale/Bounds.antt =====
-- The caps on what is delayed.
use tokeninsights.Prelude.{
  ℕ, ◌+◌, ◌≤◌, ◌<◌, Bool, List, [], ◌∷◌, ◌++◌, length, filter, length-append, length-filter, All,
  All-append, All-filter, ◌≡◌, refl, arith, ltb, leb, ◌==◌, nat_eq, ◌||◌, Bool-cases, inl, inr,
}
use tokeninsights.DataEngine.{Work}
use tokeninsights.DataEngine.Stale.{
  StaleComponent, add, prune, delay, scopes_of, max_delayed_components, max_delayed_scopes,
}

-- A delayed component has scopes and a deadline, but neither evidence nor bytes.
abbrev pub IsHint : {Evidence : Type 0} → StaleComponent Evidence → Type 0
IsHint e = (e.work.records ≡ []) × (e.work.bytes ≡ 0) × (0 < length e.work.scopes) × (0 < e.until)

pub record IsBounded {Evidence : Type 0} (s : List (StaleComponent Evidence)) : Type 0 where
  pub components : length s ≤ max_delayed_components
  pub scopes : scopes_of s ≤ max_delayed_scopes
  pub hints : All IsHint s

module _ {Evidence : Type 0} where
  scopes_of-append :
      (s t : List (StaleComponent Evidence)) → scopes_of (s ++ t) ≡ scopes_of s + scopes_of t
  unfolding scopes_of
  scopes_of-append [] t = omega arith
  scopes_of-append (e ∷ s) t = omega (arith, scopes_of-append s t)

  pub add-IsBounded :
      (work : Work Evidence) (now : ℕ) (s : List (StaleComponent Evidence))
      → IsBounded s
      → IsBounded (add work now s)
  unfolding add delay scopes_of
  add-IsBounded work now s h =
      elim (Bool-cases (leb max_delayed_components (length s) || length work.scopes == 0)) [
        | inl full ↦ rw full h
        | inr room ↦ elim (Bool-cases (ltb max_delayed_scopes (length work.scopes + scopes_of s))) [
          | inl over ↦ rw (room, over) h
          | inr fits ↦
              let room_left : length s < max_delayed_components = ground (arith, room) in
              let scopes_left : length work.scopes + scopes_of s ≤ max_delayed_scopes =
                ground (arith, fits) in
              rw (room, fits)
                (record {
                  components = omega (arith, length-append s (delay work now ∷ []), room_left);
                  scopes = omega (arith, scopes_of-append s (delay work now ∷ []), scopes_left);
                  hints =
                      All-append IsHint s _ h.hints
                        ((refl, refl, ground (arith, room), omega arith), tt);
                })
        ]
      ]

  scopes_of-filter :
      (p : StaleComponent Evidence → Bool) (s : List (StaleComponent Evidence))
      → scopes_of (filter p s) ≤ scopes_of s
  unfolding filter scopes_of
  scopes_of-filter p [] = omega arith
  scopes_of-filter p (e ∷ s) = ground (arith, scopes_of-filter p s)

  pub prune-IsBounded :
      (now : ℕ) (s : List (StaleComponent Evidence)) → IsBounded s → IsBounded (prune now s)
  unfolding prune
  prune-IsBounded now s h =
      let early : StaleComponent Evidence → Bool = λ e. ltb now e.until in
      record {
        components = omega (arith, length-filter early s, h.components);
        scopes = omega (arith, scopes_of-filter early s, h.scopes);
        hints = All-filter IsHint early s h.hints;
      }
