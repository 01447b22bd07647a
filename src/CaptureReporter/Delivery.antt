-- ===== src/CaptureReporter/Delivery.antt =====
-- packages/core/localruntime/observer.go: the events of the reporter, given to the registry.
pub mod Together
use tokeninsights.Prelude.{
  ℕ, suc, ◌<◌, String, true, false, List, [], ◌∷◌, Option, none, some, ◌≡◌, refl, ap, ◌∙◌, arith,
  string_eq,
}
use tokeninsights.Prelude.Maps.{lookup}
use tokeninsights.CollectorProgress.Message.{terminal, attempt_pattern, valid_harness}
use tokeninsights.CollectorProgress.Capture.{Capture, valid_capture}
use tokeninsights.CollectorProgress.Registry.{
  Attempt, Registry, ProgressError, lease_over, retention_over, expire, update_capture, measure,
  follows,
}
use tokeninsights.CollectorProgress.Registry.Sound.{IsSound}
use tokeninsights.CollectorProgress.Registry.Expiry.{
  expire_pointwise, expire_attempt, expire_captures,
}
use tokeninsights.CollectorProgress.Registry.Swept.{expire-IsSound}
use tokeninsights.CollectorProgress.Registry.Measured.{
  measured, update_capture-IsSound, update_capture_lem,
}
use tokeninsights.CaptureReporter.{CaptureProgressEvent, new_measurement, capture_of}
use tokeninsights.CaptureReporter.Protocol.{Op, fresh, AreAllowed, trace}
use tokeninsights.CaptureReporter.Protocol.Accepted.{AreTaken}
use tokeninsights.CaptureReporter.Protocol.Begun.{trace-AreTaken}

-- The results of `publishCapture`, which `captureProgress` drops, for the events in their order.
-- The clock is read once for each.
unfoldable pub deliver :
    (ℕ → ℕ) → String → List CaptureProgressEvent → Registry → Registry × List (Option ProgressError)
deliver clock id [] r = (r, [])
deliver clock id (e ∷ events) r =
    let (r', result) = update_capture (clock 0) id e.harness (capture_of e) r in
    let (r'', results) = deliver (λ k. clock (suc k)) id events r' in (r'', result ∷ results)

abbrev pub AreNone : List (Option ProgressError) → Type 0
AreNone [] = Unit
AreNone (o ∷ os) = (o ≡ none) × AreNone os

-- The attempt `a` is live under the id, and `last` was measured there for the harness.
pub record Awaits (id harness : String) (a : Attempt) (last : Option Capture) (r : Registry)
    : Type 0 where
  pub sound : IsSound r
  pub there : lookup id r.attempts ≡ some a
  pub live : terminal a.stage ≡ false
  pub latest : measured id harness r ≡ last

-- The sweep leaves an attempt alone whose lease is not over.
pub expire-Awaits :
    (now : ℕ) (id harness : String) (a : Attempt) (last : Option Capture) (r : Registry)
    → Awaits id harness a last r
    → now < a.expires_at_ms
    → Awaits id harness a last (expire now r)
unfolding expire_attempt expire_captures lease_over retention_over
expire-Awaits now id harness a last r h early =
    let (attempts, captures) = expire_pointwise now r id h.sound.unique in
    record {
      sound = expire-IsSound now r h.sound;
      there = ground (arith, attempts, h.there, h.live);
      live = h.live;
      latest = ground (arith, captures, h.there, h.live, h.latest);
    }

measured_taken :
    (id harness : String) (c : Capture) (a : Attempt) (last : Option Capture) (r : Registry)
    → Awaits id harness a last r
    → follows last c ≡ true
    → (measure id harness c (lookup id r.attempts) r).1 ≡ none
unfolding measure
measured_taken id harness c a last r h on = rw (h.there, h.live, h.latest, on) refl

well_formed :
    (id harness : String) (a : Attempt) (last : Option Capture) (r : Registry)
    → Awaits id harness a last r
    → attempt_pattern id ≡ true
well_formed id harness a last r h = (rw h.there at (h.sound.slots id)).0.well_formed

-- A valid measurement that may follow the last is taken, and is the last then.
pub taken :
    (now : ℕ) (id harness : String) (c : Capture) (a : Attempt) (last : Option Capture)
    (r : Registry)
    → Awaits id harness a last r
    → now < a.expires_at_ms
    → valid_capture harness c ≡ true
    → follows last c ≡ true
    → ((update_capture now id harness c r).1 ≡ none)
      × Awaits id harness a (some c) (update_capture now id harness c r).0
unfolding update_capture
taken now id harness c a last r h early valid on =
    let swept = expire-Awaits now id harness a last r h early in
    let result : (update_capture now id harness c r).1 ≡ none =
      rw (well_formed id harness a last r h, valid)
        (measured_taken id harness c a last (expire now r) swept on) in
    let stores = ((update_capture_lem now id harness c r).0 result).2 in
    (
      result,
      record {
        sound = update_capture-IsSound now id harness c r h.sound;
        there = ap (lookup id) stores.same_attempts ∙ swept.there;
        live = h.live;
        latest = stores.stored;
      },
    )

AreTaken-AreNone :
    (clock : ℕ → ℕ) (id harness : String) (events : List CaptureProgressEvent) (a : Attempt)
    (last : Option Capture) (r : Registry)
    → Awaits id harness a last r
    → ((k : ℕ) → clock k < a.expires_at_ms)
    → AreTaken harness last events
    → AreNone (deliver clock id events r).1
unfolding deliver capture_of
AreTaken-AreNone clock id harness [] a last r h early t = tt
AreTaken-AreNone clock id harness (e ∷ events) a last r h early (same, valid, on, rest) =
    let (none', h') = taken (clock 0) id harness (capture_of e) a last r h (early 0) valid on in
    rw same (
      none',
      AreTaken-AreNone (λ k. clock (suc k)) id harness events a _ _ h' (λ k. early (suc k)) rest,
    )

-- As long as the lease of a live attempt lasts and it has no measurement of the harness yet, the
-- registry takes every event that allowed calls of the reporter make, one after the other.
pub deliver-AreNone :
    (clock : ℕ → ℕ) (id harness : String) (ops : List Op) (a : Attempt) (r : Registry)
    → valid_harness harness ≡ true
    → AreAllowed fresh ops
    → Awaits id harness a none r
    → ((k : ℕ) → clock k < a.expires_at_ms)
    → AreNone (deliver clock id (trace (new_measurement harness) ops) r).1
deliver-AreNone clock id harness ops a r known allowed h early =
    AreTaken-AreNone clock id harness _ a none r h early (trace-AreTaken harness known ops allowed)
