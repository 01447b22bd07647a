-- ===== src/Pipeline/Summaries.antt =====
-- The summary of an extraction (packages/core/pipeline/extract_prepare.go) of four harnesses.
use tokeninsights.Prelude.{true, false, List, [], ◌∷◌, none, some, ◌≡◌, refl}
use tokeninsights.Prelude.Int.{pos, ◌+ℤ◌}
use tokeninsights.Pipeline.{Prepared}
use tokeninsights.Pipeline.Summed.{
  Discovery, unreadable, unsupported, sources, summarise, discover, account_all, account,
  settle_state, settle_summary, close_harness,
}

abbrev found : List Discovery
found = sources 2 ∷ unreadable ∷ sources 0 ∷ sources 2 ∷ []

abbrev fine : Prepared
fine = record {
  prepare_failed = false;
  commit_failed = false;
  count = pos 7;
  save_failed = none;
  quarantined = false;
}

abbrev corrupt : Prepared
corrupt = record {
  prepare_failed = true;
  commit_failed = false;
  count = pos 0;
  save_failed = some false;
  quarantined = false;
}

-- The capture is interrupted before the last source.
interrupted_summary :
    summarise false found (fine ∷ fine ∷ corrupt ∷ [])
    ≡ some (record {
      requested = 4;
      synced = 1;
      skipped = 1;
      failed = 2;
      raw_facts = pos 14;
      quarantined = 1;
      errors = 3;
    })
unfolding summarise discover account_all account settle_state settle_summary close_harness ◌+ℤ◌
interrupted_summary = refl

unsupported_found : summarise false (sources 1 ∷ unsupported ∷ []) (fine ∷ []) ≡ none
unfolding summarise discover
unsupported_found = refl
