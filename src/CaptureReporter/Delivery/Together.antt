-- ===== src/CaptureReporter/Delivery/Together.antt =====
-- packages/core/localruntime/observer.go: the events of several harnesses, as their calls of the reporter come, given to
-- one registry.
use tokeninsights.Prelude.{
  ℕ, suc, ◌<◌, String, Bool, true, false, ◌&&◌, List, [], ◌∷◌, Option, none, some, map, All, ◌≡◌,
  refl, sym, subst, ap, ◌∙◌, arith, ◌==◌, nat_eq, string_eq, if◌then◌else◌, Bool-cases, inl, inr,
}
use tokeninsights.Prelude.Maps.{lookup}
use tokeninsights.CollectorProgress.Message.{valid_harness}
use tokeninsights.CollectorProgress.Capture.{Capture}
use tokeninsights.CollectorProgress.Registry.{Attempt, Registry, update_capture}
use tokeninsights.CollectorProgress.Registry.Measured.{update_capture-IsSound, update_capture_lem}
use tokeninsights.CaptureReporter.{CaptureProgressEvent, Measurement, new_measurement, capture_of}
use tokeninsights.CaptureReporter.Protocol.{Op, perform, emit, trace, fresh, AreAllowed}
use tokeninsights.CaptureReporter.Protocol.Begun.{trace-AreTaken}
use tokeninsights.CaptureReporter.Protocol.Accepted.{AreTaken}
use tokeninsights.CaptureReporter.Delivery.{AreNone, Awaits, deliver, expire-Awaits, taken}

-- An event with the place of its harness.
abbrev Tagged : Type 0
Tagged = ℕ × CaptureProgressEvent

abbrev set_measurement : ℕ → Measurement → (ℕ → Measurement) → ℕ → Measurement
set_measurement k m ms h = if h == k then m else ms h

abbrev tag : ℕ → Option CaptureProgressEvent → List Tagged → List Tagged
tag k none events = events
tag k (some e) events = (k, e) ∷ events

-- The events of calls for several harnesses, in their order, each from the measurement of its own harness.
unfoldable pub tagged_events : (ℕ → Measurement) → List (ℕ × Op) → List Tagged
tagged_events ms [] = []
tagged_events ms ((k, op) ∷ calls) =
    let (m, event) = perform op (ms k) in tag k event (tagged_events (set_measurement k m ms) calls)

unfoldable pub events_of : (ℕ → Measurement) → List (ℕ × Op) → List CaptureProgressEvent
events_of ms calls = map (λ e. e.1) (tagged_events ms calls)

abbrev pub calls_for : ℕ → List (ℕ × Op) → List Op
calls_for h [] = []
calls_for h ((k, op) ∷ calls) = if k == h then op ∷ calls_for h calls else calls_for h calls

abbrev events_for : ℕ → List Tagged → List CaptureProgressEvent
events_for h [] = []
events_for h ((k, e) ∷ events) = if k == h then e ∷ events_for h events else events_for h events

same_place : (h k : ℕ) → (k == h) ≡ (h == k)
same_place h k = ground arith

events_for-tag :
    (h k : ℕ) (event : Option CaptureProgressEvent) (events : List Tagged)
    → events_for h (tag k event events)
      ≡ (if k == h then emit event (events_for h events) else events_for h events)
events_for-tag h k none events = elim (Bool-cases (k == h)) [
  | inl e ↦ rw e refl
  | inr e ↦ rw e refl
]
events_for-tag h k (some x) events = refl

-- For one harness they are the events of its own calls.
events_for-tagged_events :
    (h : ℕ) (ms : ℕ → Measurement) (calls : List (ℕ × Op))
    → events_for h (tagged_events ms calls) ≡ trace (ms h) (calls_for h calls)
unfolding tagged_events trace
events_for-tagged_events h ms [] = refl
events_for-tagged_events h ms ((k, op) ∷ calls) =
    let (m, event) = perform op (ms k) in
    let rest = events_for-tagged_events h (set_measurement k m ms) calls in
    events_for-tag h k event _ ∙ elim (Bool-cases (k == h)) [
      | inl mine ↦
          let own : events_for h (tagged_events (set_measurement k m ms) calls)
              ≡ trace m (calls_for h calls) =
            (rw (sym (same_place h k) ∙ mine) at rest) in
          rw mine (
            ap (emit event) own
            ∙ subst
                (λ i.
                  emit event (trace m (calls_for h calls))
                  ≡ emit (perform op (ms i)).1 (trace (perform op (ms i)).0 (calls_for h calls)))
                (the_place mine) refl)
      | inr other ↦ rw other (rw (sym (same_place h k) ∙ other) at rest)
    ]
  where
    the_place : (k == h) ≡ true → k ≡ h
    the_place e = ground arith

-- A measurement of another harness leaves an attempt and what was measured of this one.
taken_other :
    (now : ℕ) (id harness other : String) (c : Capture) (a : Attempt) (last : Option Capture)
    (r : Registry)
    → Awaits id other a last r
    → now < a.expires_at_ms
    → (harness == other) ≡ false
    → (update_capture now id harness c r).1 ≡ none
    → Awaits id other a last (update_capture now id harness c r).0
taken_other now id harness other c a last r h early apart done =
    let swept = expire-Awaits now id other a last r h early in
    let stores = ((update_capture_lem now id harness c r).0 done).2 in
    record {
      sound = update_capture-IsSound now id harness c r h.sound;
      there = ap (lookup id) stores.same_attempts ∙ swept.there;
      live = h.live;
      latest = stores.others id other (both (id == id) (harness == other) apart) ∙ swept.latest;
    }
  where
    both : (b c : Bool) → c ≡ false → b && c ≡ false
    both b c e = ground (arith, e)

module _ (id : String) (a : Attempt) (names : ℕ → String) (count : ℕ) where
  -- No two of the harnesses have one name.
  abbrev pub AreApart : Type 0
  AreApart = (i j : ℕ) → i < count → j < count → (names i == names j) ≡ (i == j)

  tagged-AreNone :
      (clock : ℕ → ℕ) (events : List Tagged) (last : ℕ → Option Capture) (r : Registry)
      → AreApart
      → ((k : ℕ) → clock k < a.expires_at_ms)
      → All (λ e. e.0 < count) events
      → ((h : ℕ) → h < count → Awaits id (names h) a (last h) r)
      → ((h : ℕ) → h < count → AreTaken (names h) (last h) (events_for h events))
      → AreNone (deliver clock id (map (λ e. e.1) events) r).1
  unfolding deliver capture_of
  tagged-AreNone clock [] last r apart early inside h t = tt
  tagged-AreNone clock ((k, e) ∷ events) last r apart early (lt, inside) h t =
      let (same, valid, on, rest) : AreTaken (names k) (last k) (e ∷ events_for k events) =
        (rw (itself k) at (t k lt)) in
      let c = capture_of e in
      let (none', h') = taken (clock 0) id (names k) c a (last k) r (h k lt) (early 0) valid on in
      let later : ℕ → Option Capture = λ j. if j == k then some c else last j in
      rw same (
        none',
        tagged-AreNone (λ j. clock (suc j)) events later _ apart (λ j. early (suc j)) inside
            (λ j lt'. elim (Bool-cases (j == k)) [
              | inl mine ↦ rw mine (
                  subst
                    (λ i.
                      Awaits id (names i) a (some c) (update_capture (clock 0) id (names k) c r).0)
                    (the_place j k mine) h')
              | inr other ↦ rw other (
                  taken_other (clock 0) id (names k) (names j) c a (last j) r (h j lt') (early 0)
                    (apart k j lt lt' ∙ same_place j k ∙ other) none')
            ])
            (λ j lt'. elim (Bool-cases (j == k)) [
              | inl mine ↦ rw mine (
                  subst (λ i. AreTaken (names i) (some c) (events_for i events))
                    (the_place j k mine) rest)
              | inr other ↦ rw other (rw (same_place j k ∙ other) at (t j lt'))
            ]),
      )
    where
      itself : (n : ℕ) → (n == n) ≡ true
      itself n = ground arith

      the_place : (j n : ℕ) → (j == n) ≡ true → n ≡ j
      the_place j n m = ground arith

  tagged_inside :
      (calls : List (ℕ × Op)) (ms : ℕ → Measurement)
      → All (λ call. call.0 < count) calls
      → All (λ e. e.0 < count) (tagged_events ms calls)
  unfolding tagged_events
  tagged_inside [] ms h = tt
  tagged_inside ((k, op) ∷ calls) ms (lt, h) =
      tag_inside k lt (perform op (ms k)).1 _
        (tagged_inside calls (set_measurement k (perform op (ms k)).0 ms) h)
    where
      tag_inside :
          (k : ℕ)
          → k < count
          → (event : Option CaptureProgressEvent) (events : List Tagged)
          → All (λ e. e.0 < count) events
          → All (λ e. e.0 < count) (tag k event events)
      tag_inside k lt none events h = h
      tag_inside k lt (some e) events h = (lt, h)

  -- As long as the lease of a live attempt lasts, which has no measurement of the harnesses yet, the registry takes every
  -- event that calls of the reporter make which are allowed for each harness, in whatever order they come.
  pub events-AreNone :
      (clock : ℕ → ℕ) (calls : List (ℕ × Op)) (r : Registry)
      → AreApart
      → ((k : ℕ) → clock k < a.expires_at_ms)
      → All (λ call. call.0 < count) calls
      → ((h : ℕ) → h < count → valid_harness (names h) ≡ true)
      → ((h : ℕ) → h < count → Awaits id (names h) a none r)
      → ((h : ℕ) → h < count → AreAllowed fresh (calls_for h calls))
      → AreNone (deliver clock id (events_of (λ h. new_measurement (names h)) calls) r).1
  unfolding events_of
  events-AreNone clock calls r apart early inside known waits allowed =
      let ms : ℕ → Measurement = λ h. new_measurement (names h) in
      tagged-AreNone clock (tagged_events ms calls) (λ h. none) r apart early
        (tagged_inside calls ms inside) waits
        (λ h lt.
          subst (AreTaken (names h) none) (sym (events_for-tagged_events h ms calls))
            (trace-AreTaken (names h) (known h lt) (calls_for h calls) (allowed h lt)))
