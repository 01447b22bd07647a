-- ===== src/Processor/Process/Examples.antt =====
-- Two records of a Pi session: its header, and a message without usage.
use tokeninsights.Prelude.{
  ℕ, ◌<◌, ◌⊎◌, ◌==◌, nat_eq, Bool, true, false, String, List, [], ◌∷◌, none, some, ◌≡◌, refl,
}
use tokeninsights.Prelude.Int.{ℤ, pos}
use tokeninsights.Evidence.Json.{Json, Members, end, member}
use tokeninsights.Prelude.Maps.{lookup, insert}
use tokeninsights.CollectorProgress.Snapshot.{codes_lt}
use tokeninsights.Publication.Validation.Facts.{IsPublished}
use tokeninsights.Evidence.Records.{string_at}
use tokeninsights.Evidence.Scope.{usage_record}
use tokeninsights.Processor.Ancestry.{
  sort_keys, gather, group_items, resolve_each, resolve_codex_evidence,
}
use tokeninsights.Processor.Select.{
  Settlement, sort_group, place, last_such, selected_position, payload_hash, usage_of,
  same_evidence_usage, conflicts, any_conflict, dispose, outcome_of, outcomes_of, settle_selected,
  settle_sorted, settle_group,
}
use tokeninsights.Processor.Parse.{StoredRecord}
use tokeninsights.Processor.Process.{
  process, process_records, is_cancelled, cancelled, projected, note_verdicts, note_outcomes,
  items_among, entries_among, item_named, all_items, resolved_candidates, group_candidates,
  place_group, sort_groups, outcomes_for, settle_groups, verdict_of, verdicts, settle_all,
}
use tokeninsights.Processor.Process.Settling.{SettlementHolds}
use tokeninsights.Processor.Process.Published.{process-SettlementHolds}
use tokeninsights.Processor.Parse.Examples.{functions, tag, outside, stored, candidate}
use tokeninsights.Processor.Process.Noted.{outcome_ids}
use tokeninsights.Processor.Process.Answered.{process-answers}

abbrev record_of : String → ℤ → Members → StoredRecord
record_of id ordinal content = record {
  id = id;
  source = record {
    harness = "pi";
    format = "pi-jsonl";
    source_id = "src1";
    lineage = "l1";
    ordinal = ordinal;
    content = some (Json.object content);
    context = [];
    location = none;
    diagnostics = [];
  };
}

abbrev header : Members
header = member "type" (Json.text "session") (member "id" (Json.text "s1") end)

abbrev message : Members
message =
    member "type" (Json.text "message")
      (member "message" (Json.object (member "role" (Json.text "assistant") end)) end)

abbrev records : List StoredRecord
records = record_of "r1" (pos 0) header ∷ record_of "r2" (pos 1) message ∷ []

-- A context that lives, and one that is done before the second record.
abbrev lives : ℕ → Bool
lives turn = false

abbrev ends : ℕ → Bool
ends turn = turn == 1

process-answers_example :
    ((turn : ℕ) × (turn < 2) × (ends turn ≡ true) × (process outside ends records ≡ cancelled))
    ⊎ ((is_cancelled ends 0 records ≡ false)
        × (p : Settlement) × (process outside ends records ≡ projected p)
        × (outcome_ids p.outcomes ≡ "r1" ∷ "r2" ∷ []))
process-answers_example = process-answers outside ends records

stopped : process outside ends records ≡ cancelled
unfolding process is_cancelled
stopped = refl

-- The record of Parse/Examples.antt by itself.
abbrev settlement : Settlement
settlement = record {
  outcomes =
      record { evidence_id = "r1"; fact_id = "fact-v1"; disposition = "processed"; code = "" } ∷ [];
  contributions = record { fact = candidate.fact; evidence_ids = "r1" ∷ [] } ∷ [];
  estimates = [];
}

processed : process outside lives (stored ∷ []) ≡ projected settlement
unfolding functions lookup insert codes_lt usage_record string_at sort_keys gather group_items
    resolve_each resolve_codex_evidence sort_group place last_such selected_position payload_hash
    usage_of same_evidence_usage conflicts any_conflict dispose outcome_of outcomes_of
    settle_selected settle_sorted settle_group note_verdicts note_outcomes items_among entries_among
    item_named all_items resolved_candidates group_candidates place_group sort_groups outcomes_for
    settle_groups verdict_of verdicts settle_all process_records is_cancelled process
processed = refl

process-SettlementHolds_example : SettlementHolds (IsPublished tag) settlement
process-SettlementHolds_example =
    process-SettlementHolds outside lives (stored ∷ []) settlement processed
