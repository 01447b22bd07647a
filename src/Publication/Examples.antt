-- ===== src/Publication/Examples.antt =====
-- A published fact; the identities are the tags of their tuples, in place of their hashes.
use tokeninsights.Prelude.{String, true, List, [], ◌∷◌, none, some, ◌≡◌, refl}
use tokeninsights.Prelude.Int.{pos, ◌+ℤ◌, ◌-ℤ◌}
use tokeninsights.Publication.{Fact}
use tokeninsights.Publication.Text.{
  valid_string, valid_location_label, has_slash, any_of, is_space, is_control, byte_length,
  utf8_size,
}
use tokeninsights.Publication.Identity.{session_id, message_id, fact_id, location_id}
use tokeninsights.Publication.Validation.{
  validate_fact, fails, first_of, sum_components, components, check_times, check_tokens,
  check_session, check_message, check_message_time, check_location, check_revision, valid_integer,
  valid_timestamp_ms,
}
use tokeninsights.Publication.Validation.Facts.{IsPublished, validate_fact-IsPublished}

abbrev tag : List String → String
tag [] = ""
tag (part ∷ parts) = part

abbrev fact : Fact
fact = record {
  id = "fact-v1";
  harness = "claude-code";
  session = record {
    id = "session-v1";
    harness = "claude-code";
    native_id = "s1";
    first_occurred_at_ms = pos 1000;
    last_occurred_at_ms = pos 9000;
  };
  message = some (record { id = "message-v1"; native_id = "m1"; occurred_at_ms = pos 2000 });
  native_request_id = "r1";
  occurred_at_ms = pos 2000;
  provider = "anthropic";
  provider_source = "explicit";
  model = "opus";
  usage_scope = "message";
  quality = "exact";
  countable = true;
  input_tokens = pos 10;
  output_tokens = pos 20;
  reasoning_tokens = pos 0;
  cache_read_tokens = pos 5;
  cache_write_tokens = pos 0;
  total_tokens = pos 35;
  location = some (record {
    id = "location-v1";
    directory_key = "k";
    directory_name = "src";
    repository_key = "";
    repository_name = "";
    repository_source = "";
  });
  revision = some (record { rule = "claude-source-timestamp-v1"; value = pos 2000 });
}

fact_passes : validate_fact tag fact ≡ none
unfolding validate_fact first_of fails sum_components components check_times check_tokens
    check_session check_message check_message_time check_location check_revision valid_integer
    valid_timestamp_ms valid_string valid_location_label has_slash any_of is_space is_control
    byte_length utf8_size session_id message_id fact_id location_id ◌+ℤ◌ ◌-ℤ◌
fact_passes = refl

-- One token too many in the total.
total_refused :
    validate_fact tag (record fact { total_tokens = pos 36 })
    ≡ some (record { code = "invalid_tokens"; field = "totalTokens" })
unfolding validate_fact first_of fails sum_components components check_times check_tokens
    check_session check_message check_message_time check_location check_revision valid_integer
    valid_timestamp_ms valid_string valid_location_label has_slash any_of is_space is_control
    byte_length utf8_size session_id message_id fact_id location_id ◌+ℤ◌ ◌-ℤ◌
total_refused = refl

validate_fact-IsPublished_example : IsPublished tag fact
validate_fact-IsPublished_example = validate_fact-IsPublished tag fact fact_passes
