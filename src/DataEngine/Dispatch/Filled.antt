-- ===== src/DataEngine/Dispatch/Filled.antt =====
-- What is to hold of the dispatcher at every `select`, and the filling loop.
use tokeninsights.Prelude.{
  ℕ, zero, suc, ◌+◌, ◌≤◌, ◌<◌, Bool, List, [], ◌∷◌, ◌++◌, none, some, length, ◌&&◌, not, ◌≡◌, ◌⊎◌,
  inl, inr, refl, ap, arith, ◌==◌, string_eq, Bool-cases, Option-cases, All, All-append,
  All-of-append, length-append,
}
use tokeninsights.DataEngine.{Work}
use tokeninsights.DataEngine.Stale.{StaleComponent, works, excluding}
use tokeninsights.DataEngine.Stale.Bounds.{IsBounded}
use tokeninsights.DataEngine.Dispatch.{
  Answer, cancelled, no_work, failing, loaded, Dispatcher, used, admission, claim, note_failure,
  answered, fill, worker_count, max_in_flight_bytes,
}
use tokeninsights.DataEngine.Dispatch.Apart.{
  Disjoint, IsRooted, AreApart, AreAcross, append-AreApart,
}

-- What the backend promises of a component that it gives for exclusions and a limit: no scope of it
-- is excluded, its root is one of its scopes, and a limit that is not 0 bounds its bytes.
pub record Fits {Evidence : Type 0} (excluded : List (Work Evidence)) (limit : ℕ)
    (work : Work Evidence) : Type 0 where
  pub disjoint : All (Disjoint work) excluded
  pub rooted : IsRooted work
  pub bounded : 0 < limit → work.bytes ≤ limit

abbrev pub Answers : {Evidence : Type 0} → (List (Work Evidence) → ℕ → Answer Evidence) → Type 0
Answers {Evidence = Evidence} load =
    (excluded : List (Work Evidence)) (limit : ℕ) (work : Work Evidence)
    → load excluded limit ≡ loaded work
    → Fits excluded limit work

-- At most two components at work, within the byte limit unless one is alone, and no scope in two
-- places. The goroutines are those of the claims.
pub record IsSafe {Evidence : Type 0} (d : Dispatcher Evidence) : Type 0 where
  pub few : length d.claims ≤ worker_count
  pub admitted : (length d.claims ≤ 1) ⊎ (used d.claims ≤ max_in_flight_bytes)
  pub apart : AreApart d.claims
  pub delayed_apart : AreApart (works d.delayed)
  pub across : AreAcross d.claims (works d.delayed)
  pub rooted : All IsRooted d.claims
  pub delayed_bounded : IsBounded d.delayed
  pub at_work : d.running ≡ d.claims

module _ {Evidence : Type 0} where
  used-append : (as' bs : List (Work Evidence)) → used (as' ++ bs) ≡ used as' + used bs
  unfolding used
  used-append [] bs = omega arith
  used-append (a ∷ as') bs = omega (arith, used-append as' bs)

  -- A limit is what is left of the bytes, or there is no claim.
  admission_lem :
      (claims : List (Work Evidence)) (limit : ℕ)
      → admission claims ≡ some limit
      → (length claims < worker_count)
        × ((length claims ≡ 0) ⊎ ((0 < limit) × (limit + used claims ≡ max_in_flight_bytes)))
  unfolding admission
  admission_lem claims limit h = ground arith

  excluding-All :
      (P : Work Evidence → Type 0) (claims : List (Work Evidence))
      (s : List (StaleComponent Evidence))
      → All P (excluding claims s)
      → All P claims × All P (works s)
  unfolding excluding
  excluding-All P claims [] h = (h, tt)
  excluding-All P claims (e ∷ s) h = All-of-append P claims (works (e ∷ s)) h

  within :
      (claims : List (Work Evidence)) (work : Work Evidence) (limit : ℕ)
      → (length claims ≡ 0) ⊎ ((0 < limit) × (limit + used claims ≡ max_in_flight_bytes))
      → (0 < limit → work.bytes ≤ limit)
      → length claims ≤ worker_count
      → (length (claims ++ work ∷ []) ≤ 1) ⊎ (used (claims ++ work ∷ []) ≤ max_in_flight_bytes)
  unfolding used
  within claims work limit (inl none') fits few =
      inl (omega (arith, length-append claims (work ∷ [])))
  within claims work limit (inr (some', left)) fits few =
      inr (omega (arith, used-append claims (work ∷ []), fits some'))

  claim-IsSafe :
      (work : Work Evidence) (limit : ℕ) (d : Dispatcher Evidence)
      → IsSafe d
      → admission d.claims ≡ some limit
      → Fits (excluding d.claims d.delayed) limit work
      → IsSafe (claim work d)
  unfolding claim
  claim-IsSafe work limit d h open' fits =
      let (room, left) = admission_lem d.claims limit open' in
      let (apart, across) = excluding-All (Disjoint work) d.claims d.delayed fits.disjoint in
      record {
        few = omega (arith, length-append d.claims (work ∷ []));
        admitted = within d.claims work limit left fits.bounded h.few;
        apart = append-AreApart d.claims work h.apart apart;
        delayed_apart = h.delayed_apart;
        across = All-append _ d.claims _ h.across (across, tt);
        rooted = All-append IsRooted d.claims _ h.rooted (fits.rooted, tt);
        delayed_bounded = h.delayed_bounded;
        at_work = ap (λ l. l ++ work ∷ []) h.at_work;
      }

  note_failure-IsSafe :
      (work : Work Evidence) (live : Bool) (d : Dispatcher Evidence)
      → IsSafe d
      → IsSafe (note_failure work live d)
  unfolding note_failure
  note_failure-IsSafe work live d h = elim (Bool-cases (live && not (work.root == ""))) [
    | inl e ↦ rw e (record {
      few = h.few;
      admitted = h.admitted;
      apart = h.apart;
      delayed_apart = h.delayed_apart;
      across = h.across;
      rooted = h.rooted;
      delayed_bounded = h.delayed_bounded;
      at_work = h.at_work;
    })
    | inr e ↦ rw e h
  ]

  answered-IsSafe :
      (rest : Dispatcher Evidence → Dispatcher Evidence) (answer : Answer Evidence) (limit : ℕ)
      (d : Dispatcher Evidence)
      → ((d' : Dispatcher Evidence) → IsSafe d' → IsSafe (rest d'))
      → ((work : Work Evidence)
          → answer ≡ loaded work
          → Fits (excluding d.claims d.delayed) limit work)
      → admission d.claims ≡ some limit
      → IsSafe d
      → IsSafe (answered rest answer d)
  unfolding answered
  answered-IsSafe rest cancelled limit d go fits open' h = h
  answered-IsSafe rest no_work limit d go fits open' h = h
  answered-IsSafe rest (failing work live) limit d go fits open' h =
      note_failure-IsSafe work live d h
  answered-IsSafe rest (loaded work) limit d go fits open' h =
      go (claim work d) (claim-IsSafe work limit d h open' (fits work refl))

  pub fill-IsSafe :
      (load : List (Work Evidence) → ℕ → Answer Evidence) (turns : ℕ) (d : Dispatcher Evidence)
      → Answers load
      → IsSafe d
      → IsSafe (fill load turns d)
  unfolding fill
  fill-IsSafe load zero d kept h = h
  fill-IsSafe load (suc turns) d kept h = elim (Option-cases (admission d.claims)) [
    | inl full ↦ rw (full, fill) h
    | inr (limit, open') ↦
        rw (open', fill)
          (answered-IsSafe (λ d'. fill load turns d') _ limit d
            (λ d' h'. fill-IsSafe load turns d' kept h') (λ work e. kept _ limit work e) open' h)
  ]

  answered_same :
      (go more : Dispatcher Evidence → Dispatcher Evidence) (answer : Answer Evidence)
      (d : Dispatcher Evidence)
      → ((work : Work Evidence) → more (claim work d) ≡ go (claim work d))
      → answered more answer d ≡ answered go answer d
  unfolding answered
  answered_same go more cancelled d h = refl
  answered_same go more no_work d h = refl
  answered_same go more (failing work live) d h = refl
  answered_same go more (loaded work) d h = h work

  admission_full :
      (claims : List (Work Evidence)) → worker_count ≤ length claims → admission claims ≡ none
  unfolding admission
  admission_full claims h = ground arith

  -- The loop has stopped by itself after as many turns as there are workers without a claim: with
  -- more turns it does the same.
  pub fill_enough :
      (load : List (Work Evidence) → ℕ → Answer Evidence) (turns more : ℕ) (d : Dispatcher Evidence)
      → worker_count ≤ length d.claims + turns
      → turns ≤ more
      → fill load more d ≡ fill load turns d
  unfolding fill claim
  fill_enough load zero zero d h le = refl
  fill_enough load zero (suc more) d h le = rw (admission_full d.claims (omega arith), fill) refl
  fill_enough load (suc turns) zero d h le = absurd (omega arith)
  fill_enough load (suc turns) (suc more) d h le = elim (Option-cases (admission d.claims)) [
    | inl full ↦ rw (full, fill) refl
    | inr (limit, open') ↦
        rw (open', fill)
          (answered_same (λ d'. fill load turns d') (λ d'. fill load more d') _ d
            (λ work.
              fill_enough load turns more (claim work d)
                (omega (arith, length-append d.claims (work ∷ []))) (omega arith)))
  ]
