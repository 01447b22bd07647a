-- ===== src/Evidence/Sanitize/Examples.antt =====
-- A record of a Claude session with a prompt and a path in it.
use mathlib.Core.Option
use tokeninsights.Prelude.{List, [], ◌∷◌, some, String, ◌≡◌, refl, inl}
use tokeninsights.Prelude.Results.{ok, err}
use tokeninsights.Publication.Text.{any_of, is_control, byte_length, utf8_size}
use tokeninsights.CollectorProgress.Snapshot.{codes_lt}
use tokeninsights.Evidence.Json.{
  null, number, text, array, object, nil, item, Members, end, member, leaf, value_of, put, set_leaf,
}
use tokeninsights.Evidence.Sanitize.{
  paths, claude_code_jsonl, split, starts_with, contains_text, on_drive, safe_metadata, fault,
  clean, add_code, keep_all, note_subagent, decode_object, sanitize,
}
use tokeninsights.Evidence.Sanitize.Kept.{KeptOnly, sanitize-only}
use tokeninsights.Evidence.Sanitize.Formats.{sanitize-here}
use tokeninsights.Evidence.Sanitize.Again.{sanitize-again}

abbrev usage : Members
usage =
    member "input_tokens" (number "12")
      (member "output_tokens" (array (item (number "3") nil)) (member "note" (text "mine") end))

abbrev message : Members
message = member "role" (text "assistant") (
    member "content" (text "a private answer")
      (member "model" (text "/home/me/model") (member "usage" (object usage) end)))

abbrev source : Members
source =
    member "type" (text "assistant")
      (member "cwd" (text "/home/me") (member "message" (object message) end))

abbrev kept_usage : Members
kept_usage = member "input_tokens" (number "12") (member "output_tokens" null end)

abbrev kept : Members
kept = member "type" (text "assistant") (
    member "message"
      (object (
        member "role" (text "assistant")
          (member "model" null (member "usage" (object kept_usage) end))))
      end)

abbrev codes_found : List String
codes_found = "invalid_field_type" ∷ "unsafe_metadata" ∷ []

sanitized :
    sanitize "claude-code" "claude-code-jsonl" (some (object source)) ≡ ok (kept, codes_found)
unfolding sanitize paths split starts_with contains_text on_drive safe_metadata fault clean add_code
    keep_all note_subagent decode_object leaf value_of put set_leaf any_of is_control byte_length
    utf8_size codes_lt
sanitized = refl

unsupported :
    sanitize "claude-code" "pi-jsonl" (some (object source)) ≡ err "unsupported_source_format"
unfolding sanitize paths
unsupported = refl

sanitize-only_example :
    KeptOnly "claude-code" "claude-code-jsonl"
      (some (object source))
      ("message" ∷ "usage" ∷ "input_tokens" ∷ [])
      (number "12")
unfolding leaf value_of
sanitize-only_example =
    sanitize-only "claude-code" "claude-code-jsonl" (some (object source)) (kept, codes_found)
      ("message" ∷ "usage" ∷ "input_tokens" ∷ []) (number "12") sanitized refl refl

sanitize-here_example : leaf ("type" ∷ []) kept ≡ Option.map clean (leaf ("type" ∷ []) source)
unfolding paths split decode_object
sanitize-here_example =
    sanitize-here "claude-code" "claude-code-jsonl" (some (object source)) (kept, codes_found)
      claude_code_jsonl source ("type" ∷ []) sanitized refl refl (inl refl)

sanitize-again_example :
    (diagnostics : List String) × (sanitize "claude-code" "claude-code-jsonl" (some (object kept))
      ≡ ok (kept, diagnostics))
sanitize-again_example =
    sanitize-again "claude-code" "claude-code-jsonl" (some (object source)) (kept, codes_found)
      sanitized
