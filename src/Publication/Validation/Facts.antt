-- ===== src/Publication/Validation/Facts.antt =====
-- The facts that `ValidateFact` lets pass.
use tokeninsights.Prelude.{
  String, Bool, true, false, not, ◌||◌, List, [], ◌∷◌, Option, none, some, ◌≡◌, refl, sym, ap,
  subst, ◌∙◌, arith, ◌==◌, string_eq, All, Bool-cases, Option-cases, inl, inr, eq_iff,
}
use tokeninsights.Prelude.Int.{
  ℤ, pos, ◌+ℤ◌, ◌-ℤ◌, ◌≤ℤ◌, ltb_ℤ, int_eq, int_beq_iff, +ℤ_parts, -ℤ_parts, +ℤ_assoc, +ℤ_zero,
  zero_+ℤ,
}
use tokeninsights.Publication.{Fact, FactMessage, Location, safe_integer, max_timestamp_ms}
use tokeninsights.Publication.Identity.{
  session_id, message_id, fact_id, location_id, set_message, set_location, set_ids,
}
use tokeninsights.Publication.Validation.{
  ValidationError, fails, first_of, sum_components, components, check_times, check_tokens,
  check_session, check_message, check_location, validate_fact, valid_integer, valid_timestamp_ms,
}

first_of-none :
    (check : Option ValidationError) (checks : List (Option ValidationError))
    → first_of (check ∷ checks) ≡ none
    → (check ≡ none) × (first_of checks ≡ none)
unfolding first_of
first_of-none none checks h = (refl, h)
first_of-none (some e) checks h = cc

pub fails-none : (bad : Bool) (error name : String) → fails bad error name ≡ none → bad ≡ false
unfolding fails
fails-none true error name h = cc
fails-none false error name h = refl

-- The sum of the components, with no bound.
abbrev pub plain_sum : List ℤ → ℤ
plain_sum [] = pos 0
plain_sum (c ∷ cs) = c +ℤ plain_sum cs

in_bounds :
    (sum c : ℤ)
    → (not (valid_integer c) || ltb_ℤ (pos safe_integer -ℤ sum) c) ≡ false
    → (pos 0 ≤ℤ c) × (c ≤ℤ pos safe_integer) × (sum +ℤ c ≤ℤ pos safe_integer)
unfolding valid_integer
in_bounds sum c good = ground (arith, -ℤ_parts (pos safe_integer) sum, +ℤ_parts sum c)

not_some : (result : ℤ) → Option.none ≡ some result → ⊥
not_some result e = cc

-- What the loop has of its result at the end.
some_sum :
    (sum result : ℤ)
    → some sum ≡ some result
    → (sum ≡ sum +ℤ pos 0) × (pos 0 ≤ℤ sum) × (sum ≤ℤ pos safe_integer) × Unit {0}
    → (result ≡ sum +ℤ pos 0) × (pos 0 ≤ℤ result) × (result ≤ℤ pos safe_integer) × Unit {0}
some_sum sum result e h =
    subst (λ r. (r ≡ sum +ℤ pos 0) × (pos 0 ≤ℤ r) × (r ≤ℤ pos safe_integer) × Unit {0}) {x = sum}
      {y = result} (cc e) h

-- Where the loop ends, its result is the sum, and neither a component nor the sum leaves the range.
pub sum_components_lem :
    (sum result : ℤ) (cs : List ℤ)
    → pos 0 ≤ℤ sum
    → sum ≤ℤ pos safe_integer
    → sum_components sum cs ≡ some result
    → (result ≡ sum +ℤ plain_sum cs)
      × (pos 0 ≤ℤ result)
      × (result ≤ℤ pos safe_integer)
      × All (λ c. (pos 0 ≤ℤ c) × (c ≤ℤ pos safe_integer)) cs
unfolding sum_components
sum_components_lem sum result [] low high e =
    some_sum sum result e (sym (+ℤ_zero sum), low, high, tt)
sum_components_lem sum result (c ∷ cs) low high e =
    elim (Bool-cases (not (valid_integer c) || ltb_ℤ (pos safe_integer -ℤ sum) c)) [
      | inl bad ↦ absurd (not_some result (rw bad at e))
      | inr good ↦
          let (least, most, fits) = in_bounds sum c good in
          let (total, from, to, rest) =
            sum_components_lem (sum +ℤ c) result cs (omega (arith, +ℤ_parts sum c)) fits
              (rw good at e) in
          (total ∙ +ℤ_assoc sum c (plain_sum cs), from, to, ((least, most), rest))
    ]

-- A fact as it is published: times in order and in range, the counts in range with their sum, and
-- the identities that its native ones give.
pub record IsPublished (tuple_id : List String → String) (f : Fact) : Type 0 where
  pub began : pos 0 ≤ℤ f.session.first_occurred_at_ms
  pub after_began : f.session.first_occurred_at_ms ≤ℤ f.occurred_at_ms
  pub before_end : f.occurred_at_ms ≤ℤ f.session.last_occurred_at_ms
  pub ended : f.session.last_occurred_at_ms ≤ℤ pos max_timestamp_ms
  pub counts : All (λ c. (pos 0 ≤ℤ c) × (c ≤ℤ pos safe_integer)) (components f)
  pub total : f.total_tokens ≡ plain_sum (components f)
  pub total_fits : f.total_tokens ≤ℤ pos safe_integer
  pub settled : set_ids tuple_id f ≡ f

check_times-none :
    (f : Fact)
    → check_times f ≡ none
    → (pos 0 ≤ℤ f.session.first_occurred_at_ms)
      × (f.session.first_occurred_at_ms ≤ℤ f.occurred_at_ms)
      × (f.occurred_at_ms ≤ℤ f.session.last_occurred_at_ms)
      × (f.session.last_occurred_at_ms ≤ℤ pos max_timestamp_ms)
unfolding check_times valid_timestamp_ms
check_times-none f h = ground (arith, fails-none _ _ _ h)

not_true : true ≡ false → ⊥
not_true e = cc

only_equal : (a b : ℤ) (valid : Bool) → (not valid || not (a == b)) ≡ false → a ≡ b
only_equal a b valid h = ground (arith, int_beq_iff a b)

check_tokens-none :
    (f : Fact)
    → check_tokens f ≡ none
    → (f.total_tokens ≡ plain_sum (components f))
      × (f.total_tokens ≤ℤ pos safe_integer)
      × All (λ c. (pos 0 ≤ℤ c) × (c ≤ℤ pos safe_integer)) (components f)
unfolding check_tokens
check_tokens-none f h = elim (Option-cases (sum_components (pos 0) (components f))) [
  | inl none' ↦ absurd (not_true (fails-none true _ _ (rw (none', check_tokens) at h)))
  | inr (sum, e) ↦
      let same : f.total_tokens ≡ sum =
        only_equal f.total_tokens sum (valid_integer f.total_tokens)
          (fails-none _ _ _ (rw (e, check_tokens) at h)) in
      let (total, from, to, counts) =
        sum_components_lem (pos 0) sum (components f) (omega arith) (omega arith) e in
      (
        same ∙ total ∙ zero_+ℤ (plain_sum (components f)),
        subst (λ t. t ≤ℤ pos safe_integer) (sym same) to,
        counts,
      )
]

module _ (tuple_id : List String → String) where
  check_session-none :
      (f : Fact)
      → check_session tuple_id f ≡ none
      → f.session.id ≡ session_id tuple_id f.harness f.session.native_id
  unfolding check_session
  check_session-none f h = ground (
    arith,
    eq_iff f.session.id (session_id tuple_id f.harness f.session.native_id),
    fails-none _ _ _ h,
  )

  check_message-none :
      (f : Fact) (m : Option FactMessage)
      → check_message tuple_id f m ≡ none
      → set_message tuple_id f m ≡ m
  unfolding check_message set_message
  check_message-none f none h = refl
  check_message-none f (some m) h =
      let same : m.id ≡ message_id tuple_id f.harness f.session.native_id m.native_id = ground (
        arith,
        eq_iff m.id (message_id tuple_id f.harness f.session.native_id m.native_id),
        fails-none _ _ _ h,
      ) in
      ap (λ i. some (record m { id = i })) (sym same)

  check_location-none :
      (l : Option Location) → check_location tuple_id l ≡ none → set_location tuple_id l ≡ l
  unfolding check_location set_location
  check_location-none none h = refl
  check_location-none (some l) h =
      let same : l.id ≡ location_id tuple_id l =
        ground (arith, eq_iff l.id (location_id tuple_id l), fails-none _ _ _ h) in
      ap (λ i. some (record l { id = i })) (sym same)

  settles :
      (f : Fact)
      → f.session.id ≡ session_id tuple_id f.harness f.session.native_id
      → set_message tuple_id f f.message ≡ f.message
      → set_location tuple_id f.location ≡ f.location
      → f.id ≡ fact_id tuple_id f
      → set_ids tuple_id f ≡ f
  unfolding set_ids fact_id
  settles f session message location id = cc

  -- A fact that `ValidateFact` lets pass is as facts are published: its times lie in its session
  -- and in range, its counts and their sum, the total, lie between 0 and 2^53 - 1, and `SetIDs`
  -- would change none of its identities.
  pub validate_fact-IsPublished :
      (f : Fact) → validate_fact tuple_id f ≡ none → IsPublished tuple_id f
  unfolding validate_fact
  validate_fact-IsPublished f h =
      let (harness, r1) = first_of-none _ _ h in
      let (session, r2) = first_of-none _ _ r1 in
      let (times, r3) = first_of-none _ _ r2 in
      let (native, r4) = first_of-none _ _ r3 in
      let (message_time, r5) = first_of-none _ _ r4 in
      let (message, r6) = first_of-none _ _ r5 in
      let (identity, r7) = first_of-none _ _ r6 in
      let (model, r8) = first_of-none _ _ r7 in
      let (source, r9) = first_of-none _ _ r8 in
      let (quality, r10) = first_of-none _ _ r9 in
      let (tokens, r11) = first_of-none _ _ r10 in
      let (revision, r12) = first_of-none _ _ r11 in
      let (location, r13) = first_of-none _ _ r12 in
      let (began, after, before, ended) = check_times-none f times in
      let (total, fits, counts) = check_tokens-none f tokens in
      record {
        began = began;
        after_began = after;
        before_end = before;
        ended = ended;
        counts = counts;
        total = total;
        total_fits = fits;
        settled =
            settles f (check_session-none f session) (check_message-none f f.message message)
              (check_location-none f.location location)
              (ground (arith, eq_iff f.id (fact_id tuple_id f), fails-none _ _ _ identity));
      }
