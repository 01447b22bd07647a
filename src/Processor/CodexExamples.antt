-- ===== src/Processor/CodexExamples.antt =====
-- Sessions of Codex: one that forks off another, two that name each other, and a token count that
-- waits.
use tokeninsights.Prelude.{
  String, true, List, [], ◌∷◌, Option, none, some, ◌≡◌, refl, All, arith, eq_iff,
}
use tokeninsights.Prelude.Int.{pos}
use tokeninsights.Prelude.Maps.{lookup, insert}
use tokeninsights.Prelude.{filter}
use tokeninsights.CollectorProgress.Snapshot.{codes_lt}
use tokeninsights.Publication.{Fact}
use tokeninsights.Publication.Text.{is_space}
use tokeninsights.Processor.Json.{codex_int_field}
use tokeninsights.Processor.Tokens.{less_than, sum}
use tokeninsights.Processor.Native.{
  text, object, Fields, end, field, field_of, fields_of, nested, trim_left_text, keep_unless_space,
  trim_right_text, trim_text, given_text, string_field, string_value, is_set, note_parent,
  metadata_from_payload,
}
use tokeninsights.Processor.Session.{
  CodexSnapshot, RawTokenFact, CodexCandidate, SessionState, no_state, apply_session_meta,
  apply_turn_context, apply_context, apply_contexts, usage_of,
}
use tokeninsights.Processor.Snapshot.{decimal, message_identity, set_message_id}
use tokeninsights.Processor.Event.{resolve_pending, flush_items, flush_pending, fact_from_event}
use tokeninsights.Processor.Event.Pending.{AreFlushed, flush_pending-AreFlushed}
use tokeninsights.Processor.Replay.{
  CodexItem, equal_ints, equal_counts, has_prefix, item_before, place_item, sort_items, inherited,
  any_fact, any_proof, replay_fingerprint, judged_code, judge, count_item, walk_item, walk_items,
}
use tokeninsights.Processor.Replay.Coded.{IsCoded}
use tokeninsights.Processor.Ancestry.{
  Entry, Ancestry, contains, note_entry, gather, group_items, items_of, has_parent, own_problem,
  finish_session, resolve, resolve_each, place_key, sort_keys, resolve_codex_evidence,
}
use tokeninsights.Processor.Ancestry.Finished.{is_done, problem_of}
use tokeninsights.Processor.Ancestry.Rooted.{Rooted, resolve_codex_evidence-Rooted}
use tokeninsights.Processor.Ancestry.Coded.{resolve_codex_evidence-IsCoded}
use tokeninsights.Processor.Ancestry.Ended.{resolve_codex_evidence_ends_lem}

functions : Unit {0}
unfolding lookup insert filter codes_lt is_space codex_int_field less_than sum field_of fields_of
    nested trim_left_text keep_unless_space trim_right_text trim_text given_text string_field
    string_value is_set note_parent metadata_from_payload apply_session_meta apply_turn_context
    apply_context apply_contexts usage_of decimal message_identity set_message_id resolve_pending
    flush_items flush_pending fact_from_event equal_ints equal_counts has_prefix item_before
    place_item sort_items inherited any_fact any_proof replay_fingerprint judged_code judge
    count_item walk_item walk_items contains note_entry gather group_items has_parent own_problem
    finish_session resolve resolve_each place_key sort_keys resolve_codex_evidence
functions = tt

abbrev session_meta : String → Fields → Entry
session_meta id more = record {
  data' =
      field "type" (text "session_meta") (field "payload" (object (field "id" (text id) more)) end);
  diagnostics = [];
}

abbrev forked_from : String → Fields
forked_from parent = field "forked_from_id" (text parent) end

abbrev lineage : List Entry
lineage = session_meta "root" end ∷ session_meta "child" (forked_from "root") ∷ []

abbrev cycle : List Entry
cycle = session_meta "x" (forked_from "y") ∷ session_meta "y" (forked_from "x") ∷ []

abbrev fact_in : String → Fact
fact_in session = record {
  id = session;
  harness = "codex";
  session = record {
    id = "";
    harness = "codex";
    native_id = session;
    first_occurred_at_ms = pos 1;
    last_occurred_at_ms = pos 1;
  };
  message = some (record { id = ""; native_id = "turn:1"; occurred_at_ms = pos 1 });
  native_request_id = "";
  occurred_at_ms = pos 1;
  provider = "openai";
  provider_source = "explicit";
  model = "gpt";
  usage_scope = "message";
  quality = "exact";
  countable = true;
  input_tokens = pos 1;
  output_tokens = pos 0;
  reasoning_tokens = pos 0;
  cache_read_tokens = pos 0;
  cache_write_tokens = pos 0;
  total_tokens = pos 1;
  location = none;
  revision = none;
}

abbrev raw_fact : RawTokenFact
raw_fact = record {
  harness = "codex";
  source_id = "s";
  source_kind = "codex-jsonl";
  occurred_at_ms = some (pos 1);
  session_id = some "root";
  message_id = none;
  provider = some "openai";
  model = some "gpt";
  usage_scope = "message";
  quality = "exact";
  input_tokens = some (pos 1);
  output_tokens = none;
  reasoning_tokens = none;
  cache_read_tokens = none;
  cache_write_tokens = none;
  total_tokens = none;
}

abbrev candidate : CodexCandidate
candidate = record {
  fact = raw_fact;
  turn_id = some "turn";
  line = pos 1;
  snapshot = record { last = none; total = none };
  replay_valid = true;
  cumulative = none;
}

abbrev item_of : String → CodexItem
item_of session = record {
  evidence_id = session;
  ordinal = pos 1;
  fact = fact_in session;
  code = "";
  codex = candidate;
}

abbrev proof_hash : String → String → String → CodexSnapshot → String
proof_hash turn provider model snapshot = turn

abbrev family : List CodexItem
family = item_of "child" ∷ item_of "root" ∷ []

abbrev loop : List CodexItem
loop = item_of "x" ∷ item_of "y" ∷ []

abbrev state_of : Option Ancestry → Ancestry
state_of none = record { proofs = []; visiting = []; done = []; problems = []; sessions = [] }
state_of (some a) = a

abbrev resolved : Ancestry
resolved = state_of (resolve_codex_evidence proof_hash lineage family)

abbrev looped : Ancestry
looped = state_of (resolve_codex_evidence proof_hash cycle loop)

-- The child repeats a turn of its parent; the sessions of the cycle have no root.
runs :
    (items_of (lookup "child" resolved.sessions)
      ≡ record (item_of "child") { fact = fact_in "root"; code = "known_duplicate" } ∷ [])
    × (items_of (lookup "root" resolved.sessions) ≡ item_of "root" ∷ [])
    × (problem_of looped "x" ≡ "ancestry_cycle")
    × (problem_of looped "y" ≡ "unresolved_parent")
unfolding functions
runs = (refl, refl, refl, refl)

Rooted_example : Rooted (gather lineage []) "child"
unfolding functions
Rooted_example =
    resolve_codex_evidence-Rooted proof_hash lineage family resolved "child" refl refl refl

IsCoded_example : All IsCoded (items_of (lookup "x" looped.sessions))
unfolding functions
IsCoded_example =
    resolve_codex_evidence-IsCoded proof_hash cycle loop looped "x" refl refl
      (ground (arith, eq_iff "ancestry_cycle" ""))

ends_example :
    (a : Ancestry) × (resolve_codex_evidence proof_hash cycle loop ≡ some a)
    × All (λ i. is_done a i.fact.session.native_id ≡ true) loop
ends_example = resolve_codex_evidence_ends_lem proof_hash cycle loop

abbrev payload : Fields
payload = field "id" (text "child") (forked_from "root")

abbrev context_records : List (String × Fields)
context_records = ("session_meta", (session_meta "root" end).data') ∷ ("event_msg", end) ∷ []

abbrev waiting : SessionState
waiting = record no_state {
  session_id = "root";
  pending =
      record {
        candidate = record candidate { fact = record raw_fact { model = none } };
        diagnostics = [];
      }
      ∷ [];
}

abbrev turn : Fields
turn = field "payload" (object (field "model" (text " gpt-5 ") end)) end

abbrev snapshot_hash : CodexSnapshot → String
snapshot_hash snapshot = "h"

flush_example :
    ((flush_pending snapshot_hash true (apply_turn_context turn waiting)).0.pending ≡ [])
    × AreFlushed snapshot_hash
        (some "gpt-5")
        waiting.pending
        (flush_pending snapshot_hash true (apply_turn_context turn waiting)).1
unfolding functions
flush_example = flush_pending-AreFlushed snapshot_hash turn waiting "gpt-5" refl
