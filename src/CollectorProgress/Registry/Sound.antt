-- ===== src/CollectorProgress/Registry/Sound.antt =====
-- What holds of the registry between two calls.
use tokeninsights.Prelude.{
  ◌+◌, ◌≤◌, String, true, false, [], ◌∷◌, Option, none, some, ◌≡◌, refl, arith, length, ◌==◌,
  string_eq,
}
use tokeninsights.Prelude.Maps.{Map, lookup, Unique}
use tokeninsights.CollectorProgress.Message.{terminal, attempt_pattern}
use tokeninsights.CollectorProgress.Capture.{Capture, valid_capture, capture_terminal}
use tokeninsights.CollectorProgress.Registry.{Attempt, Registry, lease_duration, max_attempts, new}

-- An attempt under the id `j`. One that has ended has an error code unless it was accepted.
pub record IsAttempt (j : String) (a : Attempt) : Type 0 where
  pub same_id : a.attempt_id ≡ j
  pub well_formed : attempt_pattern j ≡ true
  pub live_code : terminal a.stage ≡ false → a.error_code ≡ ""
  pub live_lease : terminal a.stage ≡ false → a.expires_at_ms ≡ a.updated_at_ms + lease_duration
  pub live_unfinished : terminal a.stage ≡ false → a.finished_at_ms ≡ 0
  pub ended_at : terminal a.stage ≡ true → a.finished_at_ms ≡ a.updated_at_ms
  pub ended_code : terminal a.stage ≡ true → (a.error_code == "") ≡ (a.stage == "accepted")

-- The measurements of an attempt in `stage` are valid, and over if the attempt is.
abbrev pub AreMeasured : String → Map Capture → Type 0
AreMeasured stage [] = Unit
AreMeasured stage ((harness, c) ∷ rest) =
    (valid_capture harness c ≡ true)
    × (terminal stage ≡ true → capture_terminal c.phase ≡ true)
    × AreMeasured stage rest

abbrev pub AreKept : String → Option (Map Capture) → Type 0
AreKept stage none = Unit
AreKept stage (some measurements) = AreMeasured stage measurements

-- What stands under the id `j`: no measurements without their attempt.
abbrev pub IsSlot : String → Option Attempt → Option (Map Capture) → Type 0
IsSlot j none kept = kept ≡ none
IsSlot j (some a) kept = IsAttempt j a × AreKept a.stage kept

pub record IsSound (r : Registry) : Type 0 where
  pub unique : Unique r.attempts
  pub bounded : length r.attempts ≤ max_attempts
  pub slots : (j : String) → IsSlot j (lookup j r.attempts) (lookup j r.captures)

-- An empty registry is sound.
pub new-IsSound : (instance_id : String) → IsSound (new instance_id)
unfolding lookup
new-IsSound instance_id = record { unique = tt; bounded = omega arith; slots = λ j. refl }
