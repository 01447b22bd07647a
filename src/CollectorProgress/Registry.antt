-- ===== src/CollectorProgress/Registry.antt =====
-- registry.go and the methods of capture.go: the registry under its lock, one function for each
-- method. `now` is the clock's Unix time in milliseconds. A method that returns an `error` returns
-- the registry it leaves beside it; `none` is nil. Maps are walked in the order of their lists.
pub mod Expiry
pub mod Sound
pub mod Slots
pub mod Oldest
pub mod Swept
pub mod Preserved
pub mod Outcomes
pub mod Effects
pub mod Interrupts
pub mod Calls
pub mod Verdict
pub mod Measured
use mathlib.Core.List.{foldl}
use tokeninsights.Prelude.{
  ℕ, ◌+◌, ◌-◌, String, Bool, true, false, not, ◌&&◌, ◌||◌, List, [], ◌∷◌, Option, none, some, ltb,
  leb, length, map, ◌==◌, string_eq, if◌then◌else◌,
}
use tokeninsights.Prelude.Int.{ℤ, pos, ltb_ℤ}
use tokeninsights.Prelude.Maps.{Map, lookup, insert, erase}
use tokeninsights.CollectorProgress.Message.{Message, terminal, valid_message, attempt_pattern}
use tokeninsights.CollectorProgress.Capture.{Capture, valid_capture, regresses, end_capture}

pub data ProgressError : Type 0 where
  invalid missing conflict busy : ProgressError

pub record Attempt : Type 0 where
  pub attempt_id : String
  pub stage : String
  pub harnesses : Map String
  pub acknowledged_batches : ℤ
  pub acknowledged_entries : ℤ
  pub pending_known : Bool
  pub pending : ℤ
  pub error_code : String
  pub started_at_ms : ℕ
  pub updated_at_ms : ℕ
  pub expires_at_ms : ℕ
  pub finished_at_ms : ℕ

pub record Registry : Type 0 where
  pub instance_id : String
  pub attempts : Map Attempt
  pub captures : Map (Map Capture)

-- LeaseDuration, 3 * 5 s
abbrev pub lease_duration : ℕ
lease_duration = 15000

-- TerminalRetention, 5 min
abbrev pub terminal_retention : ℕ
terminal_retention = 300000

abbrev pub max_attempts : ℕ
max_attempts = 32

abbrev pub new : String → Registry
new instance_id = record { instance_id = instance_id; attempts = []; captures = [] }

unfoldable pub end_captures : String → Map Capture → Map Capture
end_captures stage [] = []
end_captures stage ((harness, c) ∷ rest) = (harness, end_capture stage c) ∷ end_captures stage rest

-- A nil map of measurements is left nil.
unfoldable pub finish_capture : String → String → Registry → Registry
finish_capture id stage r = elim (lookup id r.captures) [
  | none ↦ r
  | some measurements ↦ record r {
    captures = insert id (end_captures stage measurements) r.captures;
  }
]

-- delete(r.attempts, id); delete(r.captures, id)
unfoldable pub forget : String → Registry → Registry
forget id r = record r { attempts = erase id r.attempts; captures = erase id r.captures }

unfoldable pub lost : Attempt → Attempt
lost a = record a {
  stage = "interrupted";
  error_code = "publisher_lost";
  finished_at_ms = a.expires_at_ms;
  updated_at_ms = a.expires_at_ms;
}

unfoldable pub lease_over : ℕ → Attempt → Bool
lease_over now a = not (terminal a.stage) && leb a.expires_at_ms now

-- `int64` subtraction is below the retention when it is negative, as 0 is.
unfoldable pub retention_over : ℕ → Attempt → Bool
retention_over now a = terminal a.stage && leb terminal_retention (now - a.finished_at_ms)

-- The second `if` of the loop of `expire`.
unfoldable pub sweep : ℕ → String → Attempt → Registry → Registry
sweep now id a r = if retention_over now a then forget id r else r

-- One round of the loop of `expire`.
unfoldable pub expire_one : ℕ → Registry → String × Attempt → Registry
expire_one now r (id, a) =
    if lease_over now a
    then sweep now id (lost a)
        (finish_capture id (lost a).stage (record r { attempts = insert id (lost a) r.attempts }))
    else sweep now id a r

unfoldable pub expire : ℕ → Registry → Registry
expire now r = foldl (expire_one now) r r.attempts

-- r.attempts[oldest].FinishedAtMS, 0 on a missing key
unfoldable pub finished_of : Option Attempt → ℕ
finished_of none = 0
finished_of (some a) = a.finished_at_ms

-- The search of `Apply` for the terminal attempt to drop; "" is none yet.
unfoldable pub oldest_from : Map Attempt → Map Attempt → String → String
oldest_from all [] oldest = oldest
oldest_from all ((id, candidate) ∷ rest) oldest = oldest_from all rest (
    if terminal candidate.stage
      && (oldest == "" || ltb candidate.finished_at_ms (finished_of (lookup oldest all)))
    then id
    else oldest)

unfoldable pub fresh : ℕ → String → Attempt
fresh now id = record {
  attempt_id = id;
  stage = "waiting";
  harnesses = [];
  acknowledged_batches = pos 0;
  acknowledged_entries = pos 0;
  pending_known = false;
  pending = pos 0;
  error_code = "";
  started_at_ms = now;
  updated_at_ms = 0;
  expires_at_ms = 0;
  finished_at_ms = 0;
}

-- The end of `Apply`: the new lease, and the end of the attempt.
unfoldable pub commit : ℕ → Message → Attempt → Registry → Registry × Option ProgressError
commit now m a r =
    let leased = record a { updated_at_ms = now; expires_at_ms = now + lease_duration } in
    if m.operation == "finish"
    then (
      let ended = finish_capture m.attempt_id leased.stage r in
          record ended {
            attempts = insert m.attempt_id (record leased { finished_at_ms = now }) ended.attempts;
          },
      none,
    )
    else (record r { attempts = insert m.attempt_id leased r.attempts }, none)

unfoldable pub merge : Message → Attempt → Attempt
merge m a = record a {
  stage = if m.stage == "" then a.stage else m.stage;
  harnesses = m.harnesses;
  acknowledged_batches = m.acknowledged_batches;
  acknowledged_entries = m.acknowledged_entries;
  pending_known = m.pending_known;
  pending = m.pending;
  error_code = m.error_code;
}

unfoldable pub goes_back : Message → Attempt → Bool
goes_back m a =
    ltb_ℤ m.acknowledged_batches a.acknowledged_batches
    || ltb_ℤ m.acknowledged_entries a.acknowledged_entries

unfoldable pub write : ℕ → Message → Attempt → Registry → Registry × Option ProgressError
write now m a r =
    if m.operation == "heartbeat"
    then commit now m a r
    else if goes_back m a
    then (r, some conflict)
    else commit now m (merge m a) r

-- A full registry drops `oldest`, if there is one.
unfoldable pub evict : ℕ → Message → String → Registry → Registry × Option ProgressError
evict now m oldest r =
    if oldest == "" then (r, some busy) else write now m (fresh now m.attempt_id) (forget oldest r)

unfoldable pub begin : ℕ → Message → Option Attempt → Registry → Registry × Option ProgressError
begin now m (some a) r = (r, some conflict)
begin now m none r =
    if leb max_attempts (length r.attempts)
    then evict now m (oldest_from r.attempts r.attempts "") r
    else write now m (fresh now m.attempt_id) r

unfoldable pub resume : ℕ → Message → Option Attempt → Registry → Registry × Option ProgressError
resume now m none r = (r, some missing)
resume now m (some a) r = if terminal a.stage then (r, some conflict) else write now m a r

-- `Apply` past the validation and the expiry.
unfoldable pub apply_valid : ℕ → Message → Registry → Registry × Option ProgressError
apply_valid now m r =
    let exists = lookup m.attempt_id r.attempts in
    if m.operation == "begin" then begin now m exists r else resume now m exists r

unfoldable pub apply : ℕ → Message → Registry → Registry × Option ProgressError
apply now m r =
    if not (valid_message m) then (r, some invalid) else apply_valid now m (expire now r)

unfoldable pub or_empty : Option (Map Capture) → Map Capture
or_empty none = []
or_empty (some measurements) = measurements

unfoldable pub follows : Option Capture → Capture → Bool
follows none capture = true
follows (some previous) capture = not (regresses previous capture)

unfoldable pub measure :
    String → String → Capture → Option Attempt → Registry → Registry × Option ProgressError
measure id harness capture none r = (r, some missing)
measure id harness capture (some a) r =
    let measurements = or_empty (lookup id r.captures) in
    if terminal a.stage
    then (r, some conflict)
    else if follows (lookup harness measurements) capture
    then (record r { captures = insert id (insert harness capture measurements) r.captures }, none)
    else (r, some conflict)

unfoldable pub update_capture :
    ℕ → String → String → Capture → Registry → Registry × Option ProgressError
update_capture now id harness capture r =
    if not (attempt_pattern id) || not (valid_capture harness capture)
    then (r, some invalid)
    else let swept = expire now r in measure id harness capture (lookup id swept.attempts) swept

unfoldable pub interrupted_at : ℕ → Attempt → Attempt
interrupted_at now a = record a {
  stage = "interrupted";
  error_code = "publisher_lost";
  updated_at_ms = now;
  finished_at_ms = now;
}

unfoldable pub interrupt_one : ℕ → Registry → String × Attempt → Registry
interrupt_one now r (id, a) =
    if terminal a.stage
    then r
    else finish_capture id (interrupted_at now a).stage
        (record r { attempts = insert id (interrupted_at now a) r.attempts })

unfoldable pub interrupt_all : ℕ → Registry → Registry
interrupt_all now r = foldl (interrupt_one now) r r.attempts
