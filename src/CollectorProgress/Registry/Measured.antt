-- ===== src/CollectorProgress/Registry/Measured.antt =====
-- `UpdateCapture`: what it stores and what it refuses.
use tokeninsights.Prelude.{
  ℕ, String, Bool, true, false, not, ◌||◌, ◌&&◌, [], ◌∷◌, Option, none, some, ◌≡◌, refl, arith,
  eq_iff, Bool-cases, inl, inr, ◌==◌, string_eq, if◌then◌else◌,
}
use tokeninsights.Prelude.Int.{ℤ, ◌≤ℤ◌, int_eq, int_beq_iff, ltb_ℤ}
use tokeninsights.Prelude.Maps.{Map, lookup, insert, lookup-insert}
use tokeninsights.CollectorProgress.Message.{terminal, attempt_pattern}
use tokeninsights.CollectorProgress.Capture.{
  Capture, CapturePhase, interrupted, is_failed, is_interrupted, valid_capture, capture_terminal,
  regresses,
}
use tokeninsights.CollectorProgress.Registry.{
  ProgressError, Attempt, Registry, expire, or_empty, follows, measure, update_capture,
}
use tokeninsights.CollectorProgress.Registry.Sound.{AreKept, AreMeasured, IsSlot, IsSound}
use tokeninsights.CollectorProgress.Registry.Slots.{AreMeasured-insert}
use tokeninsights.CollectorProgress.Registry.Swept.{expire-IsSound, set_slot}

or_empty-AreMeasured :
    (stage : String) (o : Option (Map Capture)) → AreKept stage o → AreMeasured stage (or_empty o)
unfolding or_empty
or_empty-AreMeasured stage none h = tt
or_empty-AreMeasured stage (some m) h = h

-- Storing over an attempt that is there is storing the attempt again.
insert_same :
    (id : String) (a : Attempt) (m : Map Attempt) → lookup id m ≡ some a → insert id a m ≡ m
unfolding lookup insert
insert_same id a [] h = cc
insert_same id a ((i, b) ∷ m) h = ground (arith, eq_iff i id, insert_same id a m)

measure-IsSound :
    (id harness : String) (c : Capture) (o : Option Attempt) (r : Registry)
    → lookup id r.attempts ≡ o
    → valid_capture harness c ≡ true
    → IsSound r
    → IsSound (measure id harness c o r).0
unfolding measure
measure-IsSound id harness c none r at' valid h = h
measure-IsSound id harness c (some a) r at' valid h =
    let kept = or_empty (lookup id r.captures) in
    elim (Bool-cases (terminal a.stage)) [
      | inl over ↦ rw over h
      | inr live ↦ elim (Bool-cases (follows (lookup harness kept) c)) [
        | inr back ↦ rw (live, back) h
        | inl on ↦
            let slot : IsSlot id (some a) (lookup id r.captures) = rw at' at (h.slots id) in
            rw (live, on)
              (set_slot r id a (some (insert harness c kept)) _ h
                (rw (insert_same id a r.attempts at'))
                (λ j.
                  ground
                    (arith, eq_iff id j, lookup-insert id j (insert harness c kept) r.captures))
                slot.0
                (AreMeasured-insert a.stage harness c kept live valid
                  (or_empty-AreMeasured a.stage (lookup id r.captures) slot.1))
                (λ gone. cc (gone, at')))
      ]
    ]

-- `UpdateCapture` keeps a sound registry sound, on every measurement and with every result.
pub update_capture-IsSound :
    (now : ℕ) (id harness : String) (c : Capture) (r : Registry)
    → IsSound r
    → IsSound (update_capture now id harness c r).0
unfolding update_capture
update_capture-IsSound now id harness c r h =
    let swept = expire now r in
    elim (Bool-cases (not (attempt_pattern id) || not (valid_capture harness c))) [
      | inl e ↦ rw e h
      | inr e ↦ rw e (
          measure-IsSound id harness c (lookup id swept.attempts) swept refl (ground (arith, e))
            (expire-IsSound now r h))
    ]

-- The measurement of `harness` under the id, if there is one.
abbrev pub measured : String → String → Registry → Option Capture
measured id harness r = lookup harness (or_empty (lookup id r.captures))

-- What an accepted measurement may follow: no count has gone back, a known total is kept, and a
-- measurement that was over may only turn from failed into interrupted with its counts kept.
pub record Succeeds (old new : Capture) : Type 0 where
  pub captured : old.captured ≤ℤ new.captured
  pub unchanged : old.unchanged ≤ℤ new.unchanged
  pub failed : old.failed ≤ℤ new.failed
  pub quarantined : old.quarantined ≤ℤ new.quarantined
  pub known : old.total_known ≡ true → (new.total_known ≡ true) × (new.total ≡ old.total)
  pub over :
      capture_terminal old.phase ≡ true
      → (old.phase ≡ CapturePhase.failed) × (new.phase ≡ interrupted) × (new.checked ≡ old.checked)

six_false :
    (a b c d e f : Bool)
    → (a || b || c || d || e || f) ≡ false
    → (a ≡ false) × (b ≡ false) × (c ≡ false) × (d ≡ false) × (e ≡ false) × (f ≡ false)
six_false a b c d e f h = ground arith

le_of_ltb : (a b : ℤ) → ltb_ℤ b a ≡ false → a ≤ℤ b
le_of_ltb a b h = ground arith

same_total :
    (t u : Bool) (a b : ℤ)
    → (t && (not u || not (a == b))) ≡ false
    → t ≡ true
    → (u ≡ true) × (b ≡ a)
same_total t u a b h e = ground (arith, int_beq_iff a b)

-- The phases and the counts of a measurement that follows one that was over.
cancelled_only :
    (p q : CapturePhase) (a b : ℤ) (c d e f over : Bool)
    → (over && not (is_failed p && is_interrupted q && a == b && c && d && e && f)) ≡ false
    → over ≡ true
    → (p ≡ CapturePhase.failed) × (q ≡ interrupted) × (a ≡ b)
cancelled_only p q a b c d e f over h t = ground (arith, int_beq_iff a b)

pub Succeeds-of-regresses : (old new : Capture) → regresses old new ≡ false → Succeeds old new
unfolding regresses
Succeeds-of-regresses old new h =
    let (ended, total, captured, unchanged, failed, quarantined) = six_false _ _ _ _ _ _ h in
    record {
      captured = le_of_ltb old.captured new.captured captured;
      unchanged = le_of_ltb old.unchanged new.unchanged unchanged;
      failed = le_of_ltb old.failed new.failed failed;
      quarantined = le_of_ltb old.quarantined new.quarantined quarantined;
      known = λ e. same_total old.total_known new.total_known old.total new.total total e;
      over = λ e.
          cancelled_only old.phase new.phase new.checked old.checked _ _ _ _
            (capture_terminal old.phase) ended e;
    }

follows-Succeeds :
    (o : Option Capture) (old new : Capture)
    → follows o new ≡ true
    → o ≡ some old
    → Succeeds old new
unfolding follows
follows-Succeeds none old new h e = cc
follows-Succeeds (some p) old new h e = Succeeds-of-regresses old new (ground (arith, e, h))

-- What an accepted measurement leaves: the attempt is live, the measurement stands under its
-- harness and succeeds the one that stood there, and nothing else has changed.
pub record Stores (id harness : String) (c : Capture) (old new : Registry) : Type 0 where
  pub live : (a : Attempt) × (lookup id old.attempts ≡ some a) × (terminal a.stage ≡ false)
  pub stored : measured id harness new ≡ some c
  pub succeeds : (p : Capture) → measured id harness old ≡ some p → Succeeds p c
  pub same_attempts : new.attempts ≡ old.attempts
  pub others :
      (j other : String)
      → (id == j && harness == other) ≡ false
      → measured j other new ≡ measured j other old

or_empty-some : (m : Map Capture) → or_empty (some m) ≡ m
unfolding or_empty
or_empty-some m = refl

measured-insert :
    (id harness : String) (c : Capture) (r : Registry) (j other : String)
    → measured j other (record r {
      captures = insert id (insert harness c (or_empty (lookup id r.captures))) r.captures;
    })
      ≡ (if id == j && harness == other then some c else measured j other r)
measured-insert id harness c r j other =
    let kept = or_empty (lookup id r.captures) in
    ground (
      arith,
      eq_iff id j,
      lookup-insert id j (insert harness c kept) r.captures,
      or_empty-some (insert harness c kept),
      lookup-insert harness other c kept,
    )

Stores-measure :
    (id harness : String) (c : Capture) (o : Option Attempt) (r : Registry)
    → lookup id r.attempts ≡ o
    → (measure id harness c o r).1 ≡ none
    → Stores id harness c r (measure id harness c o r).0
unfolding measure
Stores-measure id harness c none r at' h = cc
Stores-measure id harness c (some a) r at' h =
    let kept = or_empty (lookup id r.captures) in
    elim (Bool-cases (terminal a.stage)) [
      | inl over ↦ absurd (ground (arith, over))
      | inr live ↦ elim (Bool-cases (follows (lookup harness kept) c)) [
        | inr back ↦ absurd (ground (arith, live, back))
        | inl on ↦
            rw (live, on)
              (record {
                live = (a, at', live);
                stored = ground (
                  arith,
                  measured-insert id harness c r id harness,
                  eq_iff id id,
                  eq_iff harness harness,
                );
                succeeds = λ p e. follows-Succeeds (lookup harness kept) p c on e;
                same_attempts = refl;
                others = λ j other e. ground (arith, measured-insert id harness c r j other, e);
              })
      ]
    ]

measure_refused :
    (id harness : String) (c : Capture) (o : Option Attempt) (r : Registry) (e : ProgressError)
    → (measure id harness c o r).1 ≡ some e
    → (measure id harness c o r).0 ≡ r
unfolding measure
measure_refused id harness c none r e h = refl
measure_refused id harness c (some a) r e h = ground arith

-- A measurement is taken only for a live attempt and only if it is valid and succeeds the one that
-- stood there; a refused one leaves the registry as the sweep does, or as it was where the id or
-- the measurement is invalid.
pub update_capture_lem :
    (now : ℕ) (id harness : String) (c : Capture) (r : Registry)
    → ((update_capture now id harness c r).1 ≡ none
        → (attempt_pattern id ≡ true)
          × (valid_capture harness c ≡ true)
          × Stores id harness c (expire now r) (update_capture now id harness c r).0)
      × ((e : ProgressError)
          → (update_capture now id harness c r).1 ≡ some e
          → (update_capture now id harness c r).0
            ≡ (if attempt_pattern id && valid_capture harness c then expire now r else r))
unfolding update_capture
update_capture_lem now id harness c r =
    let swept = expire now r in
    let there = lookup id swept.attempts in
    elim (Bool-cases (not (attempt_pattern id) || not (valid_capture harness c))) [
      | inl e ↦ (λ h. absurd (ground (arith, e)), λ x h. rw e (ground (arith, e)))
      | inr e ↦ (
        λ h. rw e (
          ground (arith, e),
          ground (arith, e),
          Stores-measure id harness c there swept refl (rw e at h),
        ),
        λ x h. rw e (ground (arith, e, measure_refused id harness c there swept x)),
      )
    ]
