-- ===== src/CaptureReporter/Protocol/Harnesses.antt =====
-- The calls of a reporter that keeps the measurements of several harnesses.
use mathlib.Core.Option
use tokeninsights.Prelude.{
  ℕ, zero, suc, Bool, false, List, [], ◌∷◌, some, ◌≡◌, refl, arith, map, get_elem?, ◌==◌, nat_eq,
  if◌then◌else◌, Bool-cases, inl, inr,
}
use tokeninsights.CaptureReporter.{
  CaptureProgressEvent, Measurement, update, unfinished, stopped_unfinished,
}
use tokeninsights.CaptureReporter.Protocol.{perform, stop_unfinished, emit}

-- The events of the harnesses one after the other.
abbrev emit_all : Bool → List Measurement → List CaptureProgressEvent
emit_all b [] = []
emit_all b (m ∷ ms) = emit (perform (stop_unfinished b) m).1 (emit_all b ms)

-- `stoppedUnfinished` does to each harness by itself what it does to one, and its events come in
-- the order of the harnesses.
stopped_unfinished_lem :
    (b : Bool) (ms : List Measurement)
    → ((stopped_unfinished b ms).0 ≡ map (λ m. (perform (stop_unfinished b) m).0) ms)
      × ((stopped_unfinished b ms).1 ≡ emit_all b ms)
unfolding stopped_unfinished perform
stopped_unfinished_lem b [] = (refl, refl)
stopped_unfinished_lem b (m ∷ ms) =
    let (measurements, events) = stopped_unfinished_lem b ms in
    elim (Bool-cases (unfinished b m.event)) [
      | inl e ↦ rw (e, measurements, events) (refl, refl)
      | inr e ↦ rw (e, measurements, events) (refl, refl)
    ]

zero-suc : (j : ℕ) → (0 == suc j) ≡ false
zero-suc j = ground arith

suc-zero : (i : ℕ) → (suc i == 0) ≡ false
suc-zero i = ground arith

suc-suc : (i j : ℕ) → (suc i == suc j) ≡ (i == j)
suc-suc i j = ground arith

first_changed :
    (apply : Measurement → Measurement) (x : Measurement) (xs : List Measurement) (j : ℕ)
    → get_elem? (apply x ∷ xs) j
      ≡ (if 0 == j then Option.map apply (get_elem? (x ∷ xs) j) else get_elem? (x ∷ xs) j)
first_changed apply x xs zero = refl
first_changed apply x xs (suc j) = rw (zero-suc j) refl

later_changed :
    (i : ℕ) (apply : Measurement → Measurement) (x : Measurement) (xs new : List Measurement)
    → ((j : ℕ)
        → get_elem? new j ≡ (if i == j then Option.map apply (get_elem? xs j) else get_elem? xs j))
    → (j : ℕ)
    → get_elem? (x ∷ new) j
      ≡ (if suc i == j then Option.map apply (get_elem? (x ∷ xs) j) else get_elem? (x ∷ xs) j)
later_changed i apply x xs new h zero = rw (suc-zero i) refl
later_changed i apply x xs new h (suc j) = rw (suc-suc i j) (h j)

-- An update within bounds changes the measurement of its harness and no other, and its event is
-- that measurement's.
update_lem :
    (i : ℕ) (apply : Measurement → Measurement) (old : List Measurement) (m : Measurement)
    → get_elem? old i ≡ some m
    → (new : List Measurement) × (update i apply old ≡ some (new, (apply m).event))
      × ((j : ℕ)
          → get_elem? new j
            ≡ (if i == j then Option.map apply (get_elem? old j) else get_elem? old j))
unfolding update
update_lem i apply [] m e = cc
update_lem zero apply (x ∷ xs) m e = (apply x ∷ xs, cc e, first_changed apply x xs)
update_lem (suc i) apply (x ∷ xs) m e =
    let (new, done, at') = update_lem i apply xs m e in
    (x ∷ new, rw done refl, later_changed i apply x xs new at')
