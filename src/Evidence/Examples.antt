-- ===== src/Evidence/Examples.antt =====
-- A batch of two records of a Pi session, and data with a private field.
use tokeninsights.Prelude.{ℕ, true, false, [], ◌∷◌, some, ◌≡◌, refl}
use tokeninsights.Prelude.Int.{pos, ◌+ℤ◌, ◌-ℤ◌}
use tokeninsights.Prelude.Results.{ok, err}
use tokeninsights.Publication.Text.{any_of, is_control, byte_length, utf8_size}
use tokeninsights.Publication.Validation.{valid_timestamp_ms}
use tokeninsights.CollectorProgress.Snapshot.{codes_lt}
use tokeninsights.Evidence.Json.{
  null, number, text, object, Members, end, member, leaf, value_of, put, set_leaf,
}
use tokeninsights.Evidence.Sanitize.{
  paths, split, starts_with, contains_text, on_drive, safe_metadata, fault, clean, add_code,
  keep_all, note_subagent, decode_object, sanitize,
}
use tokeninsights.Evidence.Records.{
  SourceRecord, same, key_count, valid_id, string_at, check_data, check_identity, check_diagnostics,
  check_place, safe_labels, repository_source_rank, context_kind, check_record, check_context,
  check_contexts, validate_record,
}
use tokeninsights.Evidence.Records.Private.{
  IsPublishable, validate_record-IsPublishable, check_data-sanitize,
}
use tokeninsights.Evidence.Batch.{
  Batch, BatchEntry, Receipt, check_batch_identity, check_entries, decode_batch, validate_receipt,
  unique_value, strict_decode,
}
use tokeninsights.Evidence.Batch.Numbered.{IsNumbered, decode_batch-IsNumbered}

abbrev session : Members
session = member "type" (text "session") (member "id" (text "s-1") end)

abbrev message : Members
message = member "type" (text "message") (
    member "message"
      (object (
        member "role" (text "assistant")
          (member "usage" (object (member "input" (number "12") end)) end)))
      end)

abbrev first : SourceRecord
first = record {
  harness = "pi";
  format = "pi-jsonl";
  source_id = "file-1";
  lineage = "l-1";
  ordinal = pos 4;
  content = some (object message);
  context = record { ordinal = pos 0; content = some (object session); diagnostics = [] } ∷ [];
  location = some (record {
    directory_key = "d";
    directory_name = "work";
    repository_key = "";
    repository_name = "";
    repository_source = "";
  });
  diagnostics = "field_limit" ∷ [];
}

abbrev private : SourceRecord
private = record first { content = some (object (member "cwd" (text "work") message)) }

functions : Unit {0}
unfolding sanitize paths split starts_with contains_text on_drive safe_metadata fault clean add_code
    keep_all note_subagent decode_object leaf value_of put set_leaf any_of is_control byte_length
    utf8_size codes_lt same key_count valid_id string_at check_data check_identity check_diagnostics
    check_place safe_labels repository_source_rank context_kind check_record check_context
    check_contexts validate_record
functions = tt

first_taken : validate_record first ≡ ok tt
unfolding functions
first_taken = refl

private_refused : validate_record private ≡ err "private_or_unknown_field"
unfolding functions
private_refused = refl

validate_record-IsPublishable_example : IsPublishable "pi" "pi-jsonl" ("id" ∷ []) (text "s-1")
unfolding leaf value_of
validate_record-IsPublishable_example =
    validate_record-IsPublishable first 1 session ("id" ∷ []) (text "s-1") first_taken refl refl
      refl

made : sanitize "pi" "pi-jsonl" private.content ≡ ok (message, [])
unfolding functions
made = refl

check_data-sanitize_example : check_data "pi" "pi-jsonl" (some (object message)) ≡ ok tt
check_data-sanitize_example = check_data-sanitize "pi" "pi-jsonl" private.content (message, []) made

abbrev entry : ℕ → BatchEntry
entry n = record { sequence = pos n; source = first }

abbrev batch : Batch
batch = record {
  protocol_version = pos 3;
  extractor_version = pos 1;
  database_id = "db";
  dataset_id = "default";
  stream_id = "stream";
  batch_id = "b-1";
  from_sequence = pos 7;
  to_sequence = pos 8;
  entries = entry 7 ∷ entry 8 ∷ [];
}

batch_taken : decode_batch batch ≡ ok batch
unfolding decode_batch check_batch_identity check_entries functions ◌+ℤ◌ ◌-ℤ◌
batch_taken = refl

swapped_refused :
    decode_batch (record batch { entries = entry 8 ∷ entry 7 ∷ [] }) ≡ err "invalid_sequence"
unfolding decode_batch check_batch_identity check_entries functions ◌+ℤ◌ ◌-ℤ◌
swapped_refused = refl

decode_batch-IsNumbered_example :
    IsNumbered batch
    × ((entry 8).sequence ≡ batch.from_sequence +ℤ pos 1)
    × (validate_record first ≡ ok tt)
    × (batch ≡ batch)
decode_batch-IsNumbered_example = decode_batch-IsNumbered batch batch 1 (entry 8) batch_taken refl

abbrev receipt : Receipt
receipt = record {
  database_id = "db";
  dataset_id = "default";
  stream_id = "stream";
  batch_id = "b-1";
  request_hash = "hash";
  from_sequence = pos 7;
  to_sequence = pos 8;
  accepted = pos 2;
  accepted_at_ms = pos 1700000000000;
  input_revision = pos 3;
}

receipts :
    (validate_receipt batch "hash" receipt ≡ true)
    × (validate_receipt batch "other" receipt ≡ false)
unfolding validate_receipt valid_timestamp_ms
receipts = (refl, refl)

texts :
    (strict_decode 100 (object message) ≡ ok (object message))
    × (strict_decode 100 (object (member "a" null (member "a" null end))) ≡ err "duplicate_field")
unfolding strict_decode unique_value
texts = (refl, refl)
