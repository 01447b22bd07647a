-- ===== src/Processor/Parse/Examples.antt =====
-- A record of an old Pi session, whose input still includes the cached tokens.
use tokeninsights.Prelude.{String, true, List, [], ◌∷◌, none, some, ◌≡◌, refl}
use tokeninsights.Prelude.Int.{pos, ◌+ℤ◌, ◌-ℤ◌}
use tokeninsights.Prelude.Results.{ok}
use tokeninsights.Publication.Text.{
  valid_string, valid_location_label, has_slash, any_of, is_space, is_control, byte_length,
  utf8_size,
}
use tokeninsights.Publication.Identity.{
  session_id, message_id, fact_id, location_id, set_message, set_location, set_ids,
}
use tokeninsights.Publication.Validation.{
  validate_fact, fails, first_of, sum_components, components, check_times, check_tokens,
  check_session, check_message, check_message_time, check_location, check_revision, valid_integer,
  valid_timestamp_ms,
}
use tokeninsights.Evidence.Json.{Json, Members, end, member, value_of, leaf}
use tokeninsights.Evidence.Sanitize.{decode_object, contains_text, starts_with}
use tokeninsights.Evidence.Records.{string_at, NativeContext}
use tokeninsights.Processor.Json.{parse_int, trim_left, trim_right, trim_space}
use tokeninsights.Processor.Tokens.{
  sum_from, token_component_sum, is_negative, clamp_token, int_pointer_value,
}
use tokeninsights.Processor.Native.{
  field_of, fields_of, nested, trim_left_text, keep_unless_space, trim_right_text, trim_text,
  given_text, string_field, string_value,
}
use tokeninsights.Processor.Messages.{
  int_of, int_field, has_invalid_integer, no_counts, some_negative, clamp_tokens, split_reasoning,
}
use tokeninsights.Processor.Messages.Reasoning.{IsCounted}
use tokeninsights.Processor.Pi.{pi_counts, inclusive_cache, pi_tokens, pi_fact}
use tokeninsights.Processor.Claude.{counts_of}
use tokeninsights.Processor.Canonical.{
  countable, normalized_text, provider_alias, canonical_provider, strip_prefix, model_prefix,
  canonical_model,
}
use tokeninsights.Processor.Outside.{Outside}
use tokeninsights.Processor.Parse.{
  StoredRecord, ParsedRecord, EvidenceCandidate, native_of, native_fields, fields_from,
  group_conflicts, any_group_conflicts, conflicting_native_aliases,
}
use tokeninsights.Processor.Parse.Raw.{pi_session, parse_pi, parse_raw}
use tokeninsights.Processor.Parse.Candidate.{
  revision_of, is_doubtful, any_doubtful, any_fault, code_of, is_complete, fact_of, complete_parsed,
  parse_evidence,
}
use tokeninsights.Processor.Parse.Certain.{
  IsProved, IsCertain, parse_evidence-IsProved, parse_evidence-IsCertain,
}
use tokeninsights.Processor.Parse.Counted.{parse_raw-IsCounted}

unfoldable pub functions : Unit {0}
unfolding ◌+ℤ◌ ◌-ℤ◌ valid_string valid_location_label has_slash any_of is_space is_control
    byte_length utf8_size session_id message_id fact_id location_id set_message set_location set_ids
    validate_fact fails first_of sum_components components check_times check_tokens check_session
    check_message check_message_time check_location check_revision valid_integer valid_timestamp_ms
    value_of leaf decode_object contains_text starts_with string_at parse_int trim_left trim_right
    trim_space sum_from token_component_sum is_negative clamp_token int_pointer_value field_of
    fields_of nested trim_left_text keep_unless_space trim_right_text trim_text given_text
    string_field string_value int_of int_field has_invalid_integer no_counts some_negative
    clamp_tokens split_reasoning pi_counts inclusive_cache pi_tokens pi_fact countable
    normalized_text provider_alias canonical_provider strip_prefix model_prefix canonical_model
    native_of fields_from group_conflicts any_group_conflicts conflicting_native_aliases pi_session
    parse_pi parse_raw revision_of is_doubtful any_doubtful any_fault code_of is_complete fact_of
    complete_parsed parse_evidence
functions = tt

abbrev pub tag : List String → String
tag [] = ""
tag (part ∷ parts) = part

-- The tag of a tuple in place of its hash, and no timestamp as a text.
abbrev pub outside : Outside
outside = record {
  tuple_id = tag;
  estimate_id = λ source lineage ordinal. "e";
  json_hash = λ fact. fact.id;
  snapshot_hash = λ snapshot. "";
  proof_hash = λ turn provider model snapshot. turn;
  hash = λ s. s;
  parse_timestamp = λ s. none;
}

abbrev usage : Members
usage = member "input" (Json.number "10") (
    member "output" (Json.number "20") (
      member "reasoning" (Json.number "5")
        (member "cacheRead" (Json.number "4") (member "totalTokens" (Json.number "30") end))))

abbrev message : Members
message = member "role" (Json.text "assistant") (
    member "timestamp" (Json.number "2000") (
      member "provider" (Json.text "openai-codex")
        (member "model" (Json.text "gpt-5") (member "usage" (Json.object usage) end))))

abbrev content : Members
content =
    member "type" (Json.text "message")
      (member "id" (Json.text "m1") (member "message" (Json.object message) end))

abbrev header : NativeContext
header = record {
  ordinal = pos 0;
  content =
      some (Json.object (member "type" (Json.text "session") (member "id" (Json.text "s1") end)));
  diagnostics = [];
}

abbrev pub stored : StoredRecord
stored = record {
  id = "r1";
  source = record {
    harness = "pi";
    format = "pi-jsonl";
    source_id = "src1";
    lineage = "l1";
    ordinal = pos 3;
    content = some (Json.object content);
    context = header ∷ [];
    location = none;
    diagnostics = [];
  };
}

abbrev pub candidate : EvidenceCandidate
candidate = record {
  stored = stored;
  fact = record {
    id = "fact-v1";
    harness = "pi";
    session = record {
      id = "session-v1";
      harness = "pi";
      native_id = "s1";
      first_occurred_at_ms = pos 2000;
      last_occurred_at_ms = pos 2000;
    };
    message = some (record { id = "message-v1"; native_id = "m1"; occurred_at_ms = pos 2000 });
    native_request_id = "";
    occurred_at_ms = pos 2000;
    provider = "openai";
    provider_source = "explicit";
    model = "gpt-5";
    usage_scope = "message";
    quality = "exact";
    countable = true;
    input_tokens = pos 6;
    output_tokens = pos 15;
    reasoning_tokens = pos 5;
    cache_read_tokens = pos 4;
    cache_write_tokens = pos 0;
    total_tokens = pos 30;
    location = none;
    revision = none;
  };
  code = "";
  codex = none;
}

parsed : parse_evidence outside stored [] ≡ some candidate
unfolding functions
parsed = refl

parse_evidence-IsProved_example : IsProved outside stored [] candidate
parse_evidence-IsProved_example = parse_evidence-IsProved outside stored [] candidate parsed

parse_evidence-IsCertain_example : IsCertain outside stored [] candidate
parse_evidence-IsCertain_example = parse_evidence-IsCertain outside stored [] candidate parsed refl

abbrev parsed_record : ParsedRecord
parsed_record = record {
  raw = record {
    harness = "pi";
    source_id = "pi-session:s1";
    source_kind = "pi-jsonl";
    occurred_at_ms = some (pos 2000);
    session_id = some "s1";
    message_id = some "m1";
    provider = some "openai-codex";
    model = some "gpt-5";
    usage_scope = "message";
    quality = "exact";
    input_tokens = some (pos 6);
    output_tokens = some (pos 15);
    reasoning_tokens = some (pos 5);
    cache_read_tokens = some (pos 4);
    cache_write_tokens = none;
    total_tokens = some (pos 30);
  };
  request_id = "";
  diagnostics = "pi_jsonl_inclusive_input_tokens" ∷ [];
  codex = none;
}

read : parse_raw outside stored.source [] (native_fields content) ≡ ok parsed_record
unfolding functions
read = refl

parse_raw-IsCounted_example : IsCounted (counts_of parsed_record.raw)
parse_raw-IsCounted_example =
    parse_raw-IsCounted outside stored.source [] (native_fields content) parsed_record refl read
