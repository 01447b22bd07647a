-- ===== src/CaptureReporter/Protocol.antt =====
-- The order in which `extractPrepared` (packages/core/pipeline/extract_prepare.go) calls the
-- reporter for one harness, the readers and the single writer interleaved in any way.
pub mod Tally
pub mod Work
pub mod Accepted
pub mod Begun
pub mod Harnesses
use tokeninsights.Prelude.{
  ℕ, suc, ◌+◌, ◌-◌, ◌≤◌, ◌<◌, Bool, List, [], ◌∷◌, Option, none, some, ◌≡◌, if◌then◌else◌,
}
use tokeninsights.Prelude.Int.{ℤ, pos}
use tokeninsights.CollectorProgress.Message.{max_safe_counter}
use tokeninsights.CaptureReporter.{
  CaptureProgressEvent, Measurement, begin_discovery, discovered, note_reading, note_saving,
  finalized, stopped, unfinished,
}

-- The calls that concern one harness: `discovering`, `discovered`, `reading` at the start and at
-- the end of a source, `saving`, `finalized`, `stopped` and `stoppedUnfinished`.
pub data Op : Type 0 where
  seek : Op
  found : ℕ → Op
  start finish : Op
  save : Op
  settle : ℤ → Bool → Bool → Op
  stop : Bool → Op
  stop_unfinished : Bool → Op

-- The measurement after a call, and the event for the callback.
unfoldable pub perform : Op → Measurement → Measurement × Option CaptureProgressEvent
perform seek m = (begin_discovery m, some (begin_discovery m).event)
perform (found n) m = (discovered (pos n) m, some (discovered (pos n) m).event)
perform start m = (note_reading Bool.true m, some (note_reading Bool.true m).event)
perform finish m = (note_reading Bool.false m, some (note_reading Bool.false m).event)
perform save m = (note_saving m, some (note_saving m).event)
perform (settle count failing is_quarantined) m =
    let m' = finalized count failing is_quarantined m in (m', some m'.event)
perform (stop is_interrupted) m = (stopped is_interrupted m, some (stopped is_interrupted m).event)
perform (stop_unfinished is_interrupted) m =
    if unfinished is_interrupted m.event
    then (stopped is_interrupted m, some (stopped is_interrupted m).event)
    else (m, none)

-- Where the sources of the harness stand: how many are not begun, being read, and read but not
-- finalized, once they are known.
pub data Ledger : Type 0 where
  fresh looking unknown over : Ledger
  working : ℕ → ℕ → ℕ → Ledger

-- What may be called when. A source is started before its reading ends, and read before it is saved
-- and finalized; the unfinished ones are stopped once no reader is at work, and last of all.
abbrev pub Allowed : Ledger → Op → Type 0
Allowed fresh seek = Unit
Allowed fresh (stop_unfinished _) = Unit
Allowed looking (found n) = n ≤ max_safe_counter
Allowed looking (stop _) = Unit
Allowed unknown (stop_unfinished _) = Unit
Allowed (working left open' ready) start = 0 < left
Allowed (working left open' ready) finish = 0 < open'
Allowed (working left open' ready) save = 0 < ready
Allowed (working left open' ready) (settle _ _ _) = 0 < ready
Allowed (working left open' ready) (stop_unfinished _) = open' ≡ 0
Allowed _ _ = ⊥

abbrev pub next : Ledger → Op → Ledger
next fresh seek = looking
next looking (found n) = working n 0 0
next looking (stop _) = unknown
next (working left open' ready) start = working (left - 1) (open' + 1) ready
next (working left open' ready) finish = working left (open' - 1) (ready + 1)
next (working left open' ready) (settle _ _ _) = working left open' (ready - 1)
next (working left open' ready) (stop_unfinished _) = over
next l _ = l

abbrev pub AreAllowed : Ledger → List Op → Type 0
AreAllowed l [] = Unit
AreAllowed l (op ∷ ops) = Allowed l op × AreAllowed (next l op) ops

abbrev pub emit :
    Option CaptureProgressEvent → List CaptureProgressEvent → List CaptureProgressEvent
emit none events = events
emit (some e) events = e ∷ events

-- The events of a sequence of calls, in their order.
unfoldable pub trace : Measurement → List Op → List CaptureProgressEvent
trace m [] = []
trace m (op ∷ ops) = let (m', event) = perform op m in emit event (trace m' ops)
