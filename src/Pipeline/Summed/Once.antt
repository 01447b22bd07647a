-- ===== src/Pipeline/Summed/Once.antt =====
-- That the summary of an extraction (packages/core/pipeline/extract_prepare.go) counts each
-- harness once.
use tokeninsights.Prelude.{
  ℕ, ◌+◌, Bool, true, false, List, [], ◌∷◌, Option, none, some, nat_eq, length, ◌≡◌,
}
use tokeninsights.Prelude.Int.{int_eq}
use tokeninsights.Pipeline.Summed.{
  Summary, Discovery, unsupported, unreadable, sources, Found, pending,
}
use tokeninsights.Pipeline.Summed.Fits.{Fits, Above}
use tokeninsights.Pipeline.Summed.Accounts.{harnesses_counted}

-- What the discovery from a place on makes.
record Discovers (i : ℕ) (n : ℕ) (s : Summary) (found : Found) : Type 0 where
  fits : Fits i found.0 found.1
  above : Above i found.1
  all : harnesses_counted found.2 + pending found.0 ≡ harnesses_counted s + n
  same : found.2.requested ≡ s.requested

abbrev pub lacks_adapter : List Discovery → Bool
lacks_adapter [] = false
lacks_adapter (unsupported ∷ ds) = true
lacks_adapter (unreadable ∷ ds) = lacks_adapter ds
lacks_adapter (sources n ∷ ds) = lacks_adapter ds

-- The extraction is given up if a harness has no adapter, and else each harness is counted once.
abbrev pub CountsOnce : List Discovery → Option Summary → Type 0
CountsOnce ds none = lacks_adapter ds ≡ true
CountsOnce ds (some s) =
    (lacks_adapter ds ≡ false)
    × (s.requested ≡ length ds)
    × (s.synced + s.skipped + s.failed ≡ s.requested)
