-- ===== src/CollectorProgress/Registry/Verdict.antt =====
-- `Apply`: when a message is taken, and with which error it is refused.
use tokeninsights.Prelude.{
  ℕ, String, Bool, true, false, not, ◌||◌, ◌&&◌, [], ◌∷◌, Option, none, some, ◌≡◌, refl, arith,
  Bool-cases, Option-cases, inl, inr, ◌==◌, string_eq, if◌then◌else◌, length, leb,
}
use tokeninsights.Prelude.Maps.{Map, lookup}
use tokeninsights.CollectorProgress.Message.{Message, terminal, valid_message}
use tokeninsights.CollectorProgress.Registry.{
  ProgressError, invalid, missing, conflict, busy, Attempt, Registry, expire, fresh, merge,
  goes_back, write, forget, oldest_from, evict, begin, resume, apply_valid, apply, max_attempts,
}
use tokeninsights.CollectorProgress.Registry.Sound.{IsSound}
use tokeninsights.CollectorProgress.Registry.Oldest.{Within, Within-self, oldest_from-IsOldest}
use tokeninsights.CollectorProgress.Registry.Preserved.{IsSound-named}
use tokeninsights.CollectorProgress.Registry.Swept.{expire-IsSound}
use tokeninsights.CollectorProgress.Registry.Outcomes.{commit_lem, begin_counts}

-- No attempt is terminal.
unfoldable pub all_live : Map Attempt → Bool
all_live [] = true
all_live ((_, a) ∷ m) = not (terminal a.stage) && all_live m

-- The error for a message on a registry that was swept; `none` is taken.
unfoldable pub verdict : Message → Registry → Option ProgressError
verdict m r =
    if not (valid_message m) then some invalid else elim (lookup m.attempt_id r.attempts) [
      | none ↦
          if m.operation == "begin"
          then if leb max_attempts (length r.attempts) && all_live r.attempts
            then some busy
            else none
          else some missing
      | some a ↦
          if m.operation == "begin"
            || terminal a.stage
            || not (m.operation == "heartbeat") && goes_back m a
          then some conflict
          else none
    ]

write-verdict :
    (now : ℕ) (m : Message) (a : Attempt) (r : Registry)
    → (write now m a r).1
      ≡ (if not (m.operation == "heartbeat") && goes_back m a then some conflict else none)
unfolding write
write-verdict now m a r = ground (arith, commit_lem now m a r, commit_lem now m (merge m a) r)

all_live-lookup :
    (m : Map Attempt) (j : String) (a : Attempt)
    → lookup j m ≡ some a
    → terminal a.stage ≡ true
    → all_live m ≡ false
unfolding lookup all_live
all_live-lookup [] j a h t = cc
all_live-lookup ((i, b) ∷ m) j a h t = ground (arith, all_live-lookup m j a)

all_live-Within :
    (all rest : Map Attempt)
    → Within all rest
    → ((j : String) (b : Attempt) → lookup j all ≡ some b → terminal b.stage ≡ false)
    → all_live rest ≡ true
unfolding all_live
all_live-Within all [] w h = refl
all_live-Within all ((i, b) ∷ rest) (named, found, w) h =
    ground (arith, h i b found, all_live-Within all rest w h)

oldest-all_live :
    (r : Registry) → IsSound r → (oldest_from r.attempts r.attempts "" == "") ≡ all_live r.attempts
oldest-all_live r s =
    let named = IsSound-named r s in
    let o = oldest_from-IsOldest r.attempts s.unique named in
    elim (Bool-cases (oldest_from r.attempts r.attempts "" == "")) [
      | inl e ↦ rw (
        e,
        all_live-Within r.attempts r.attempts (Within-self r.attempts s.unique named)
            (o.none_over e),
      )
      | inr e ↦ let (a, at', t) = o.found e in rw (e, all_live-lookup r.attempts _ a at' t)
    ]

begin-verdict :
    (now : ℕ) (m : Message) (r : Registry)
    → IsSound r
    → valid_message m ≡ true
    → (m.operation == "begin") ≡ true
    → (begin now m none r).1
      ≡ (if leb max_attempts (length r.attempts) && all_live r.attempts then some busy else none)
unfolding begin evict
begin-verdict now m r s valid b =
    let oldest = oldest_from r.attempts r.attempts "" in
    ground (
      arith,
      oldest-all_live r s,
      begin_counts m now valid b,
      write-verdict now m (fresh now m.attempt_id) r,
      write-verdict now m (fresh now m.attempt_id) (forget oldest r),
    )

begin_again :
    (now : ℕ) (m : Message) (a : Attempt) (r : Registry)
    → (begin now m (some a) r).1 ≡ some conflict
unfolding begin
begin_again now m a r = refl

resume_absent : (now : ℕ) (m : Message) (r : Registry) → (resume now m none r).1 ≡ some missing
unfolding resume
resume_absent now m r = refl

resume-verdict :
    (now : ℕ) (m : Message) (a : Attempt) (r : Registry)
    → (resume now m (some a) r).1 ≡ (
        if terminal a.stage || not (m.operation == "heartbeat") && goes_back m a
        then some conflict
        else none)
unfolding resume
resume-verdict now m a r = ground (arith, write-verdict now m a r)

-- On a sound registry `Apply` answers what `verdict` says of the swept registry.
pub apply-verdict :
    (now : ℕ) (m : Message) (r : Registry)
    → IsSound r
    → (apply now m r).1 ≡ verdict m (expire now r)
unfolding apply apply_valid verdict
apply-verdict now m r s =
    let swept = expire now r in
    let sound = expire-IsSound now r s in
    elim (Option-cases (lookup m.attempt_id swept.attempts)) [
      | inl e ↦ ground (arith, e, begin-verdict now m swept sound, resume_absent now m swept)
      | inr (a, e) ↦ ground (arith, e, begin_again now m a swept, resume-verdict now m a swept)
    ]
