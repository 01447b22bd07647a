-- ===== src/DataEngine/Dispatch/Rounds.antt =====
-- Rounds of the dispatcher, one after another.
use tokeninsights.Prelude.{
  ℕ, zero, suc, ◌+◌, ◌≤◌, Bool, true, false, List, [], ◌∷◌, ◌++◌, some, length, ◌&&◌, not, ◌≡◌, ◌⊎◌,
  inl, inr, refl, sym, ap, arith, ◌==◌, string_eq, nat_eq, ◌||◌, if◌then◌else◌, Bool-cases,
  Option-cases, ltb, leb, All, All-erase_idx, All-get_elem?, get_elem?, erase_idx, filter, ◌∙◌,
}
use tokeninsights.DataEngine.{Work}
use tokeninsights.DataEngine.Stale.{
  StaleComponent, scopes_of, max_delayed_components, max_delayed_scopes, add, delay, prune, works,
}
use tokeninsights.DataEngine.Stale.Bounds.{IsBounded, add-IsBounded, prune-IsBounded}
use tokeninsights.DataEngine.Dispatch.{
  Dispatcher, used, worker_count, max_in_flight_bytes, complete, Event, awake, report, receive,
  Round, turn, run, idle,
}
use tokeninsights.DataEngine.Dispatch.Apart.{
  Disjoint, IsRooted, AreApart, AreAcross, append-AreApart, AreAcross-append, erase_idx-AreApart,
  erased-Disjoint, release-erase_idx,
}
use tokeninsights.DataEngine.Dispatch.Filled.{Answers, IsSafe, fill-IsSafe}

module _ {Evidence : Type 0} where
  -- Of the delayed components some are left.
  pub works-prune-All :
      (P : Work Evidence → Type 0) (now : ℕ) (s : List (StaleComponent Evidence))
      → All P (works s)
      → All P (works (prune now s))
  unfolding prune filter
  works-prune-All P now [] h = tt
  works-prune-All P now (e ∷ s) (p, h) = elim (Bool-cases (ltb now e.until)) [
    | inl early ↦ rw early (p, works-prune-All P now s h)
    | inr late ↦ rw late (works-prune-All P now s h)
  ]

  prune-AreApart :
      (now : ℕ) (s : List (StaleComponent Evidence))
      → AreApart (works s)
      → AreApart (works (prune now s))
  unfolding prune filter
  prune-AreApart now [] h = tt
  prune-AreApart now (e ∷ s) (d, h) = elim (Bool-cases (ltb now e.until)) [
    | inl early ↦ rw early (works-prune-All (Disjoint e.work) now s d, prune-AreApart now s h)
    | inr late ↦ rw late (prune-AreApart now s h)
  ]

  prune-AreAcross :
      (now : ℕ) (as' : List (Work Evidence)) (s : List (StaleComponent Evidence))
      → AreAcross as' (works s)
      → AreAcross as' (works (prune now s))
  prune-AreAcross now [] s h = tt
  prune-AreAcross now (a ∷ as') s (d, h) =
      (works-prune-All (Disjoint a) now s d, prune-AreAcross now as' s h)

  prune-IsSafe :
      (now : ℕ) (d : Dispatcher Evidence)
      → IsSafe d
      → IsSafe (record d { delayed = prune now d.delayed })
  prune-IsSafe now d h = record {
    few = h.few;
    admitted = h.admitted;
    apart = h.apart;
    delayed_apart = prune-AreApart now d.delayed h.delayed_apart;
    across = prune-AreAcross now d.claims d.delayed h.across;
    rooted = h.rooted;
    delayed_bounded = prune-IsBounded now d.delayed h.delayed_bounded;
    at_work = h.at_work;
  }

  -- `add` appends the component or does nothing.
  add-cases :
      (work : Work Evidence) (now : ℕ) (s : List (StaleComponent Evidence))
      → (add work now s ≡ s) ⊎ (add work now s ≡ s ++ delay work now ∷ [])
  unfolding add
  add-cases work now s =
      elim (Bool-cases (leb max_delayed_components (length s) || length work.scopes == 0)) [
        | inl full ↦ rw full (inl refl)
        | inr room ↦ elim (Bool-cases (ltb max_delayed_scopes (length work.scopes + scopes_of s))) [
          | inl over ↦ rw (room, over) (inl refl)
          | inr fits ↦ rw (room, fits) (inr refl)
        ]
      ]

  length-erase_idx : (as' : List (Work Evidence)) (i : ℕ) → length (erase_idx as' i) ≤ length as'
  unfolding erase_idx
  length-erase_idx [] i = omega arith
  length-erase_idx (a ∷ as') zero = omega arith
  length-erase_idx (a ∷ as') (suc i) = omega (arith, length-erase_idx as' i)

  used-erase_idx : (as' : List (Work Evidence)) (i : ℕ) → used (erase_idx as' i) ≤ used as'
  unfolding erase_idx used
  used-erase_idx [] i = omega arith
  used-erase_idx (a ∷ as') zero = omega arith
  used-erase_idx (a ∷ as') (suc i) = omega (arith, used-erase_idx as' i)

  works-append : (s t : List (StaleComponent Evidence)) → works (s ++ t) ≡ works s ++ works t
  works-append [] t = refl
  works-append (e ∷ s) t = ap (λ rest. e.work ∷ rest) (works-append s t)

  used_le :
      (as' : List (Work Evidence)) (i : ℕ)
      → (length as' ≤ 1) ⊎ (used as' ≤ max_in_flight_bytes)
      → (length (erase_idx as' i) ≤ 1) ⊎ (used (erase_idx as' i) ≤ max_in_flight_bytes)
  used_le as' i (inl one) = inl (omega (arith, length-erase_idx as' i))
  used_le as' i (inr fits) = inr (omega (arith, used-erase_idx as' i))

  -- What is taken out of the claims may be delayed.
  delayed-IsSafe :
      (claims : List (Work Evidence)) (s : List (StaleComponent Evidence)) (now : ℕ)
      (work : Work Evidence)
      → AreApart (works s)
      → AreAcross claims (works s)
      → All (Disjoint work) (works s)
      → All (λ b. Disjoint b work) claims
      → AreApart (works (add work now s)) × AreAcross claims (works (add work now s))
  unfolding delay
  delayed-IsSafe claims s now work apart across alone away = elim (add-cases work now s) [
    | inl same ↦ rw same (apart, across)
    | inr added ↦
        rw (added, works-append s (delay work now ∷ []))
          (
            append-AreApart (works s) (delay work now).work apart alone,
            AreAcross-append claims (works s) (delay work now).work across away,
          )
  ]

  -- It is if `b` is true.
  maybe_delayed-IsSafe :
      (b : Bool) (claims : List (Work Evidence)) (s : List (StaleComponent Evidence)) (now : ℕ)
      (work : Work Evidence)
      → AreApart (works s)
      → AreAcross claims (works s)
      → All (Disjoint work) (works s)
      → All (λ c. Disjoint c work) claims
      → IsBounded s
      → AreApart (works (if b then add work now s else s))
        × AreAcross claims (works (if b then add work now s else s))
        × IsBounded (if b then add work now s else s)
  maybe_delayed-IsSafe true claims s now work apart across alone away bounded =
      let (apart', across') = delayed-IsSafe claims s now work apart across alone away in
      (apart', across', add-IsBounded work now s bounded)
  maybe_delayed-IsSafe false claims s now work apart across alone away bounded =
      (apart, across, bounded)

  complete-IsSafe :
      (i now : ℕ) (work : Work Evidence) (failed published : Bool) (d : Dispatcher Evidence)
      → get_elem? d.claims i ≡ some work
      → IsSafe d
      → IsSafe (record (complete now work failed published d) { running = erase_idx d.running i })
  unfolding complete
  complete-IsSafe i now work failed published d at' h =
      let left = erase_idx d.claims i in
      let (apart, across, bounded) =
        maybe_delayed-IsSafe (not failed && not published) left d.delayed now work h.delayed_apart
          (All-erase_idx _ d.claims i h.across)
          (All-get_elem? (λ a. All (Disjoint a) (works d.delayed)) d.claims i work h.across at')
          (erased-Disjoint d.claims i work h.apart at') h.delayed_bounded in
      rw (release-erase_idx d.claims i work h.apart h.rooted at') (record {
        few = omega (arith, length-erase_idx d.claims i, h.few);
        admitted = used_le d.claims i h.admitted;
        apart = erase_idx-AreApart d.claims i h.apart;
        delayed_apart = apart;
        across = across;
        rooted = All-erase_idx IsRooted d.claims i h.rooted;
        delayed_bounded = bounded;
        at_work = ap (λ l. erase_idx l i) h.at_work;
      })

  receive-IsSafe : (event : Event) (d : Dispatcher Evidence) → IsSafe d → IsSafe (receive event d)
  unfolding receive
  receive-IsSafe awake d h = h
  receive-IsSafe (report i now failed published) d h = elim (Option-cases (get_elem? d.running i)) [
    | inl out ↦ rw (out, receive) h
    | inr (work, at') ↦
        rw (at', receive)
          (complete-IsSafe i now work failed published d
            (ap (λ l. get_elem? l i) (sym h.at_work) ∙ at') h)
  ]

  run_from-IsSafe :
      (rounds : List (Round Evidence)) (d : Dispatcher Evidence)
      → All (λ (r : Round Evidence). Answers r.load) rounds
      → IsSafe d
      → IsSafe (run rounds d)
  unfolding run turn
  run_from-IsSafe [] d kept h = h
  run_from-IsSafe (r ∷ rounds) d (kept, rest) h =
      run_from-IsSafe rounds (turn r d) rest
        (receive-IsSafe r.event _ (fill-IsSafe r.load worker_count _ kept (prune-IsSafe r.now d h)))

  idle-IsSafe : IsSafe (idle {Evidence = Evidence})
  unfolding used scopes_of
  idle-IsSafe = record {
    few = omega arith;
    admitted = inl (omega arith);
    apart = tt;
    delayed_apart = tt;
    across = tt;
    rooted = tt;
    delayed_bounded = record { components = omega arith; scopes = omega arith; hints = tt };
    at_work = refl;
  }

  -- As long as the backend keeps its promise, whatever it answers and whatever the goroutines
  -- report in whatever order, the dispatcher is safe after every round: at most two claims, the
  -- bytes within the limit unless one claim is alone, all components of claims and delays
  -- disjoint, the delays within their caps, and the goroutines those of the claims.
  pub run-IsSafe :
      (rounds : List (Round Evidence))
      → All (λ (r : Round Evidence). Answers r.load) rounds
      → IsSafe (run rounds idle)
  run-IsSafe rounds kept = run_from-IsSafe rounds idle kept idle-IsSafe
