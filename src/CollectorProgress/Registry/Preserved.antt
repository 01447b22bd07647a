-- ===== src/CollectorProgress/Registry/Preserved.antt =====
-- `Apply` on a sound registry.
use mathlib.Core.Option
use tokeninsights.Prelude.{
  ℕ, ◌<◌, String, true, false, [], ◌∷◌, Option, none, some, ◌≡◌, refl, ap, arith, length, leb,
  eq_iff, Bool-cases, inl, inr, is_none, ◌==◌, string_eq,
}
use tokeninsights.Prelude.Maps.{
  Map, lookup, Unique, lookup-erase, erase-Unique, length-erase-lt, length-erase-le,
}
use tokeninsights.CollectorProgress.Message.{Message, terminal, valid_message, attempt_pattern}
use tokeninsights.CollectorProgress.Capture.{Capture}
use tokeninsights.CollectorProgress.Registry.{
  Attempt, Registry, end_captures, forget, expire, fresh, merge, commit, goes_back, write, evict,
  begin, resume, apply_valid, apply, max_attempts, oldest_from,
}
use tokeninsights.CollectorProgress.Registry.Expiry.{
  attempts-finish_capture, captures-finish_capture,
}
use tokeninsights.CollectorProgress.Registry.Sound.{IsAttempt, IsSlot, IsSound}
use tokeninsights.CollectorProgress.Registry.Oldest.{IsOldest, AllNamed, oldest_from-IsOldest}
use tokeninsights.CollectorProgress.Registry.Slots.{
  AreKept-end, AreKept-live, leased, ended, merge-live, merge-ended, finish_only,
}
use tokeninsights.CollectorProgress.Registry.Swept.{expire-IsSound, set_slot, IsSlot-kept}

abbrev HasRoom : String → Registry → Type 0
HasRoom id r = is_none (lookup id r.attempts) ≡ true → length r.attempts < max_attempts

-- The ways in which `commit` is called: a live attempt goes on, or a finishing message ends one.
commit-IsSound :
    (now : ℕ) (m : Message) (a : Attempt) (r : Registry)
    → IsSound r
    → HasRoom m.attempt_id r
    → ((m.operation == "finish") ≡ false
        → (terminal a.stage ≡ false) × IsAttempt m.attempt_id (leased now a))
    → ((m.operation == "finish") ≡ true → IsAttempt m.attempt_id (ended now a))
    → IsSound (commit now m a r).0
unfolding commit
commit-IsSound now m a r h room live over =
    let (old, kept) =
      IsSlot-kept m.attempt_id (lookup m.attempt_id r.attempts) (lookup m.attempt_id r.captures)
        (h.slots m.attempt_id) in
    elim (Bool-cases (m.operation == "finish")) [
      | inl e ↦ rw e (
          set_slot r m.attempt_id (ended now a)
            (Option.map (end_captures a.stage) (lookup m.attempt_id r.captures)) _ h
            (rw (attempts-finish_capture m.attempt_id a.stage r))
            (λ j.
              ground
                (arith, eq_iff m.attempt_id j, captures-finish_capture m.attempt_id a.stage j r))
            (over e) (AreKept-end old a.stage a.stage _ kept) room)
      | inr e ↦ rw e (
          set_slot r m.attempt_id (leased now a) (lookup m.attempt_id r.captures) _ h refl
            (λ j. ground (arith, eq_iff m.attempt_id j)) (live e).1
            (AreKept-live old a.stage _ (live e).0 kept) room)
    ]

-- An attempt on which a message may act.
record IsLive (id : String) (a : Attempt) : Type 0 where
  same_id : a.attempt_id ≡ id
  well_formed : attempt_pattern id ≡ true
  live : terminal a.stage ≡ false
  no_code : a.error_code ≡ ""
  unfinished : a.finished_at_ms ≡ 0

IsAttempt-leased : (now : ℕ) (id : String) (a : Attempt) → IsLive id a → IsAttempt id (leased now a)
IsAttempt-leased now id a h = ground arith

merge-IsLive :
    (m : Message) (id : String) (a : Attempt)
    → valid_message m ≡ true
    → (m.operation == "heartbeat") ≡ false
    → (m.operation == "finish") ≡ false
    → IsLive id a
    → IsLive id (merge m a)
unfolding merge
merge-IsLive m id a valid beat finish h = ground (arith, merge-live m a valid beat finish h.live)

merge-ended-IsAttempt :
    (now : ℕ) (m : Message) (id : String) (a : Attempt)
    → valid_message m ≡ true
    → (m.operation == "finish") ≡ true
    → IsLive id a
    → IsAttempt id (ended now (merge m a))
unfolding merge
merge-ended-IsAttempt now m id a valid finish h = ground (arith, merge-ended m a valid finish)

write-IsSound :
    (now : ℕ) (m : Message) (a : Attempt) (r : Registry)
    → valid_message m ≡ true
    → IsSound r
    → HasRoom m.attempt_id r
    → IsLive m.attempt_id a
    → IsSound (write now m a r).0
unfolding write
write-IsSound now m a r valid h room live = elim (Bool-cases (m.operation == "heartbeat")) [
  | inl beat ↦ rw beat (
      commit-IsSound now m a r h room (λ _. (live.live, IsAttempt-leased now m.attempt_id a live))
        (λ e. cc ((finish_only m.operation e).1, beat)))
  | inr other ↦ elim (Bool-cases (goes_back m a)) [
    | inl back ↦ rw (other, back) h
    | inr forward ↦
        rw (other, forward)
          (commit-IsSound now m (merge m a) r h room
            (λ e.
              let on = merge-IsLive m m.attempt_id a valid other e live in
              (on.live, IsAttempt-leased now m.attempt_id (merge m a) on))
            (λ e. merge-ended-IsAttempt now m m.attempt_id a valid e live))
  ]
]

valid-pattern : (m : Message) → valid_message m ≡ true → attempt_pattern m.attempt_id ≡ true
unfolding valid_message
valid-pattern m h = ground arith

fresh-IsLive : (now : ℕ) (id : String) → attempt_pattern id ≡ true → IsLive id (fresh now id)
unfolding fresh terminal
fresh-IsLive now id h = ground arith

-- The ids are never the empty text, which the search for the oldest attempt uses for none.
empty_pattern : attempt_pattern "" ≡ false
unfolding attempt_pattern
empty_pattern = refl

forget-IsSound : (id : String) (r : Registry) → IsSound r → IsSound (forget id r)
unfolding forget
forget-IsSound id r h = record {
  unique = erase-Unique id r.attempts h.unique;
  bounded = omega (arith, length-erase-le id r.attempts, h.bounded);
  slots = λ j. elim (Bool-cases (id == j)) [
    | inl e ↦ rw (lookup-erase id j r.attempts, lookup-erase id j r.captures, e) refl
    | inr e ↦ rw (lookup-erase id j r.attempts, lookup-erase id j r.captures, e) (h.slots j)
  ];
}

-- In a sound registry every id matches the pattern, so none is empty.
IsSlot-named :
    (j : String) (o : Option Attempt) (kept : Option (Map Capture))
    → IsSlot j o kept
    → (j == "") ≡ true
    → o ≡ none
IsSlot-named j none kept h e = refl
IsSlot-named j (some a) kept (h, _) e =
    cc (ap attempt_pattern ((eq_iff j "").0 e), empty_pattern, h.well_formed)

named_of :
    (all rest : Map Attempt)
    → Unique rest
    → ((j : String) → (j == "") ≡ true → lookup j rest ≡ none)
    → AllNamed rest
unfolding lookup
named_of all [] u h = tt
named_of all ((id, a) ∷ rest) (fresh, u) h = (
  ground (arith, h id, eq_iff id id),
  named_of all rest u (λ j e. ground (arith, h j e, eq_iff id j, fresh)),
)

pub IsSound-named : (r : Registry) → IsSound r → AllNamed r.attempts
IsSound-named r h =
    named_of r.attempts r.attempts h.unique
      (λ j e. IsSlot-named j (lookup j r.attempts) (lookup j r.captures) (h.slots j) e)

-- What is dropped from a full registry leaves room.
evict-HasRoom :
    (r : Registry) (id oldest : String)
    → IsSound r
    → IsOldest r.attempts oldest
    → (oldest == "") ≡ false
    → HasRoom id (forget oldest r)
unfolding forget
evict-HasRoom r id oldest h o named _ =
    let (a, at', _) = o.found named in
    omega (arith, length-erase-lt oldest r.attempts (rw at' refl), h.bounded)

begin-IsSound :
    (now : ℕ) (m : Message) (o : Option Attempt) (r : Registry)
    → valid_message m ≡ true
    → IsSound r
    → IsSound (begin now m o r).0
unfolding begin evict
begin-IsSound now m (some a) r valid h = h
begin-IsSound now m none r valid h =
    let live = fresh-IsLive now m.attempt_id (valid-pattern m valid) in
    let oldest = oldest_from r.attempts r.attempts "" in
    elim (Bool-cases (leb max_attempts (length r.attempts))) [
      | inr room ↦
          rw room (
            write-IsSound now m (fresh now m.attempt_id) r valid h (λ _. ground (arith, room)) live)
      | inl full ↦ elim (Bool-cases (oldest == "")) [
        | inl e ↦ rw (full, e) h
        | inr e ↦
            rw (full, e)
              (write-IsSound now m (fresh now m.attempt_id) (forget oldest r) valid
                (forget-IsSound oldest r h)
                (evict-HasRoom r m.attempt_id oldest h
                  (oldest_from-IsOldest r.attempts h.unique (IsSound-named r h)) e)
                live)
      ]
    ]

IsSlot-IsLive :
    (j : String) (a : Attempt) (kept : Option (Map Capture))
    → IsSlot j (some a) kept
    → terminal a.stage ≡ false
    → IsLive j a
IsSlot-IsLive j a kept (h, _) live = ground arith

resume-IsSound :
    (now : ℕ) (m : Message) (o : Option Attempt) (r : Registry)
    → lookup m.attempt_id r.attempts ≡ o
    → valid_message m ≡ true
    → IsSound r
    → IsSound (resume now m o r).0
unfolding resume
resume-IsSound now m none r at' valid h = h
resume-IsSound now m (some a) r at' valid h = elim (Bool-cases (terminal a.stage)) [
  | inl e ↦ rw e h
  | inr e ↦ rw e (
      write-IsSound now m a r valid h (λ gone. cc (gone, at'))
        (IsSlot-IsLive m.attempt_id a (lookup m.attempt_id r.captures)
          (rw at' at (h.slots m.attempt_id)) e))
]

-- `Apply` keeps a sound registry sound, on every message and with every result.
pub apply-IsSound : (now : ℕ) (m : Message) (r : Registry) → IsSound r → IsSound (apply now m r).0
unfolding apply apply_valid
apply-IsSound now m r h =
    let swept = expire now r in
    let sound = expire-IsSound now r h in
    elim (Bool-cases (valid_message m)) [
      | inr e ↦ rw e h
      | inl e ↦ elim (Bool-cases (m.operation == "begin")) [
        | inl b ↦ rw (e, b) (begin-IsSound now m (lookup m.attempt_id swept.attempts) swept e sound)
        | inr b ↦
            rw (e, b) (resume-IsSound now m (lookup m.attempt_id swept.attempts) swept refl e sound)
      ]
    ]
