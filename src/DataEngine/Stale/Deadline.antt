-- ===== src/DataEngine/Stale/Deadline.antt =====
-- The deadline that `next` gives after `prune`.
use mathlib.Core.List.{foldl}
use tokeninsights.Prelude.{
  ℕ, ◌≤◌, ◌<◌, true, false, List, [], ◌∷◌, filter, All, All-filter, ◌≡◌, refl, sym, subst, ◌∙◌,
  arith, ltb, nat_eq, if◌then◌else◌, Bool-cases, inl, inr, ◌⊎◌, ltb→lt,
}
use tokeninsights.DataEngine.Stale.{StaleComponent, prune, sooner, next}

module _ {Evidence : Type 0} where
  abbrev pub Has : ℕ → List (StaleComponent Evidence) → Type 0
  Has deadline [] = ⊥
  Has deadline (e ∷ s) = (deadline ≡ e.until) ⊎ Has deadline s

  -- `deadline` is the earliest of `best` and of those in `s`.
  record IsLeast (deadline best : ℕ) (s : List (StaleComponent Evidence)) : Type 0 where
    one : (deadline ≡ best) ⊎ Has deadline s
    below : All (λ e. deadline ≤ e.until) s
    least : deadline ≤ best
    positive : 0 < deadline

  IsLeast-earlier :
      (deadline best : ℕ) (e : StaleComponent Evidence) (s : List (StaleComponent Evidence))
      → e.until < best
      → IsLeast deadline e.until s
      → IsLeast deadline best (e ∷ s)
  IsLeast-earlier deadline best e s lt h = record {
    one = inr h.one;
    below = (h.least, h.below);
    least = omega (arith, h.least);
    positive = h.positive;
  }

  IsLeast-later :
      (deadline best : ℕ) (e : StaleComponent Evidence) (s : List (StaleComponent Evidence))
      → best ≤ e.until
      → IsLeast deadline best s
      → IsLeast deadline best (e ∷ s)
  IsLeast-later deadline best e s ge h = record {
    one = elim h.one [ inl same ↦ inl same | inr later ↦ inr (inr later) ];
    below = (omega (arith, h.least), h.below);
    least = h.least;
    positive = h.positive;
  }

  sooner_lem :
      (best : ℕ) (e : StaleComponent Evidence)
      → 0 < best
      → sooner best e ≡ (if ltb e.until best then e.until else best)
  unfolding sooner
  sooner_lem best e h = ground arith

  foldl-IsLeast :
      (best : ℕ) (s : List (StaleComponent Evidence))
      → 0 < best
      → All (λ e. 0 < e.until) s
      → IsLeast (foldl sooner best s) best s
  foldl-IsLeast best [] some_best h = record {
    one = inl refl;
    below = tt;
    least = omega arith;
    positive = some_best;
  }
  foldl-IsLeast best (e ∷ s) some_best (p, h) = elim (Bool-cases (ltb e.until best)) [
    | inl lt ↦
        let step : e.until ≡ sooner best e = sym (sooner_lem best e some_best ∙ rw lt refl) in
        subst (λ b. IsLeast (foldl sooner b s) best (e ∷ s)) step
          (IsLeast-earlier _ best e s (ltb→lt e.until best lt) (foldl-IsLeast e.until s p h))
    | inr ge ↦
        let step : best ≡ sooner best e = sym (sooner_lem best e some_best ∙ rw ge refl) in
        subst (λ b. IsLeast (foldl sooner b s) best (e ∷ s)) step
          (IsLeast-later _ best e s (ground arith) (foldl-IsLeast best s some_best h))
  ]

  -- All deadlines that `prune` leaves are to come.
  prune-All :
      (now : ℕ) (s : List (StaleComponent Evidence)) → All (λ e. now < e.until) (prune now s)
  unfolding prune filter
  prune-All now [] = tt
  prune-All now (e ∷ s) = elim (Bool-cases (ltb now e.until)) [
    | inl lt ↦ rw lt (ltb→lt now e.until lt, prune-All now s)
    | inr ge ↦ rw ge (prune-All now s)
  ]

  Has-All :
      (now deadline : ℕ) (s : List (StaleComponent Evidence))
      → All (λ e. now < e.until) s
      → Has deadline s
      → now < deadline
  Has-All now deadline [] h at' = absurd at'
  Has-All now deadline (e ∷ s) (p, h) (inl same) = omega arith
  Has-All now deadline (e ∷ s) (p, h) (inr later) = Has-All now deadline s h later

  next_lem :
      (s : List (StaleComponent Evidence))
      → All (λ e. 0 < e.until) s
      → ((next s).1 ≡ false → s ≡ [])
        × ((next s).1 ≡ true → Has (next s).0 s × All (λ e. (next s).0 ≤ e.until) s)
  unfolding next sooner
  next_lem [] h = (λ e. refl, λ e. cc)
  next_lem (e ∷ s) (p, h) =
      let least = foldl-IsLeast e.until s p h in
      (
        λ none'. absurd (ground (arith, none', least.positive)),
        λ some'. (least.one, (least.least, least.below)),
      )

  -- Where no deadline is the zero time, `next` of what `prune` leaves says whether anything is
  -- left, and gives a deadline of something left, the earliest, after the time of the pruning.
  pub next-prune :
      (now : ℕ) (s : List (StaleComponent Evidence))
      → All (λ e. 0 < e.until) s
      → ((next (prune now s)).1 ≡ false → prune now s ≡ [])
        × ((next (prune now s)).1 ≡ true
            → (now < (next (prune now s)).0)
              × Has (next (prune now s)).0 (prune now s)
              × All (λ e. (next (prune now s)).0 ≤ e.until) (prune now s))
  unfolding prune
  next-prune now s h =
      let left = prune now s in
      let late = prune-All now s in
      let (nothing, something) =
        next_lem left (All-filter (λ e. 0 < e.until) (λ e. ltb now e.until) s h) in
      (
        nothing,
        λ e.
            let (at', below) = something e in (Has-All now (next left).0 left late at', at', below),
      )
