-- ===== src/Evidence/Scope/Examples.antt =====
-- A record of a Pi session that has the header of its session as context.
use tokeninsights.Prelude.{true, [], ◌∷◌, none, some, ◌≡◌, refl, string_eq}
use tokeninsights.Prelude.Int.{pos}
use tokeninsights.Evidence.Json.{Json, end, member, leaf, value_of}
use tokeninsights.Evidence.Records.{SourceRecord, string_at}
use tokeninsights.Evidence.Scope.{native_session, own_native, context_native, usage_record}

abbrev message : SourceRecord
message = record {
  harness = "pi";
  format = "pi-jsonl";
  source_id = "src1";
  lineage = "l1";
  ordinal = pos 3;
  content = some (
      Json.object (
        member "type" (Json.text "message") (
          member "id" (Json.text "m1")
            (member "message" (Json.object (member "role" (Json.text "assistant") end)) end))));
  context =
      record {
        ordinal = pos 0;
        content =
            some (
              Json.object (member "type" (Json.text "session") (member "id" (Json.text "s1") end)));
        diagnostics = [];
      }
      ∷ [];
  location = none;
  diagnostics = [];
}

session_named : native_session message ≡ "s1"
unfolding native_session own_native context_native string_at leaf value_of
session_named = refl

holds_usage : usage_record message.harness message.format message.content ≡ true
unfolding usage_record string_at leaf value_of
holds_usage = refl
