-- ===== src/Processor/Parse/Counted.antt =====
-- The counts that the parsers of Pi, Claude Code and OpenCode read.
use tokeninsights.Prelude.{
  String, Bool, true, false, List, [], ◌∷◌, Option, some, ◌≡◌, subst, Bool-cases, inl, inr, ◌==◌,
  string_eq, if◌then◌else◌,
}
use tokeninsights.Prelude.Int.{ℤ}
use tokeninsights.Prelude.Results.{Result, err, ok, ok_inj, >>=-then, >>-eq-ok}
use tokeninsights.Processor.Native.{Native, Fields, nested, field_of, fields_of, string_field}
use tokeninsights.Processor.Outside.{Outside}
use tokeninsights.Processor.Session.{or_else, RawTokenFact}
use tokeninsights.Processor.Messages.{int_field}
use tokeninsights.Processor.Messages.Reasoning.{IsCounted}
use tokeninsights.Processor.Pi.{time_of, given, pi_tokens, pi_fact}
use tokeninsights.Processor.Pi.Counts.{pi_tokens-IsCounted}
use tokeninsights.Processor.Claude.{counts_of, finalize_claude, finalize_claude_fact, claude_fact}
use tokeninsights.Processor.Claude.Counts.{finalize_claude-IsCounted}
use tokeninsights.Processor.OpenCode.{
  opencode_fact, opencode_tokens, OpencodeMessage, opencode_data, decode_message, decode_v2_message,
  decode_int, fact_from_message, fact_from_v2_message,
}
use tokeninsights.Evidence.Records.{SourceRecord}
use tokeninsights.Processor.Parse.{StoredRecord, ParsedRecord}
use tokeninsights.Processor.Parse.Raw.{
  at_top, pi_session, parse_opencode, parse_pi, parse_claude, parse_raw,
}
use tokeninsights.Processor.OpenCode.Counts.{opencode_tokens-IsCounted}

module _ (hash : String → String) (parse_timestamp : String → Option ℤ) where
  pub pi_fact-IsCounted :
      (kind session : String) (record' : Fields) (parsed : RawTokenFact × List String)
      → pi_fact hash parse_timestamp kind session record' ≡ ok parsed
      → IsCounted (counts_of parsed.0)
  unfolding pi_fact
  pi_fact-IsCounted kind session record' parsed h =
      let message = nested (some record') "message" in
      let (_, h1) = >>-eq-ok _ _ h in
      let (_, h2) = >>-eq-ok _ _ h1 in
      >>=-then (given [] (nested message "usage")) _ h2 λ usage _ h3.
        >>=-then (pi_tokens usage) _ h3 λ counted is_counted h4.
          >>=-then
            (given ("pi_jsonl_missing_time" ∷ []) (
              time_of hash parse_timestamp (int_field (fields_of message) ("timestamp" ∷ []))
                (string_field record' "timestamp")))
            _ h4
            λ at' _ h5.
              let (_, h6) = >>-eq-ok _ _ h5 in
              subst (λ x. IsCounted (counts_of x.0)) (ok_inj _ parsed h6)
                (pi_tokens-IsCounted usage counted.0 counted.1 is_counted)

pub finalize_claude_fact-IsCounted :
    (fact : RawTokenFact) (settled : RawTokenFact × List String)
    → finalize_claude_fact fact ≡ ok settled
    → IsCounted (counts_of settled.0)
unfolding finalize_claude_fact
finalize_claude_fact-IsCounted fact settled h =
    >>=-then (finalize_claude (counts_of fact)) _ h λ c is_c last.
      subst (λ x. IsCounted (counts_of x.0)) (ok_inj _ settled last)
        (finalize_claude-IsCounted (counts_of fact) c.0 c.1 is_c)

opencode_fact-IsCounted :
    (source kind message session : String) (created : Option ℤ) (m : OpencodeMessage)
    (parsed : RawTokenFact × List String)
    → opencode_fact source kind message session created m ≡ ok parsed
    → IsCounted (counts_of parsed.0)
unfolding opencode_fact
opencode_fact-IsCounted source kind message session created m parsed h =
    >>=-then (opencode_tokens m.tokens) _ h λ counted is_counted h1.
      >>=-then (given ("opencode_sqlite_missing_time" ∷ []) (or_else m.created created)) _ h1
        λ at' _ last.
          subst (λ x. IsCounted (counts_of x.0)) (ok_inj _ parsed last)
            (opencode_tokens-IsCounted m.tokens counted.0 counted.1 is_counted)

-- Both formats end in the same fact.
module _ (source kind message session : String) (created : Option ℤ) (data' : Option Native)
    (parsed : RawTokenFact × List String) where
  pub fact_from_message-IsCounted :
      fact_from_message source kind message session created data' ≡ ok parsed
      → IsCounted (counts_of parsed.0)
  unfolding fact_from_message
  fact_from_message-IsCounted h = >>=-then (opencode_data data') _ h λ fs _ h1.
      >>=-then (decode_message fs) _ h1 λ m _ h2.
        opencode_fact-IsCounted source kind message session created m parsed (>>-eq-ok _ _ h2).1

  pub fact_from_v2_message-IsCounted :
      fact_from_v2_message source kind message session created data' ≡ ok parsed
      → IsCounted (counts_of parsed.0)
  unfolding fact_from_v2_message
  fact_from_v2_message-IsCounted h = >>=-then (opencode_data data') _ h λ fs _ h1.
      >>=-then (decode_v2_message fs) _ h1
        λ m _ h2. opencode_fact-IsCounted source kind message session created m parsed h2

-- The parser that is taken for a format.
either_parser :
    (r : SourceRecord) (fs : Fields) (created : Option ℤ) (v2 : Bool)
    (parsed : RawTokenFact × List String)
    → (if v2 then fact_from_v2_message else fact_from_message) r.source_id r.format
        (at_top "id" r.content)
        (at_top "session_id" r.content)
        created
        (field_of "data" fs)
      ≡ ok parsed
    → IsCounted (counts_of parsed.0)
either_parser r fs created true parsed h = fact_from_v2_message-IsCounted _ _ _ _ created _ parsed h
either_parser r fs created false parsed h = fact_from_message-IsCounted _ _ _ _ created _ parsed h

parse_opencode-IsCounted :
    (r : SourceRecord) (fs : Fields) (p : ParsedRecord)
    → parse_opencode r fs ≡ ok p
    → IsCounted (counts_of p.raw)
unfolding parse_opencode
parse_opencode-IsCounted r fs p h =
    >>=-then (decode_int (field_of "time_created" fs)) _ h λ created _ h1.
      let (_, h2) = >>-eq-ok _ _ h1 in
      >>=-then
        ((if r.format == "opencode-v2" then fact_from_v2_message else fact_from_message) r.source_id
          r.format (at_top "id" r.content) (at_top "session_id" r.content) created
          (field_of "data" fs))
        _ h2
        λ parsed is_parsed last.
          subst (λ x. IsCounted (counts_of x.raw)) (ok_inj _ p last)
            (either_parser r fs created (r.format == "opencode-v2") parsed is_parsed)

module _ (out : Outside) where
  parse_pi-IsCounted :
      (r : SourceRecord) (fs : Fields) (p : ParsedRecord)
      → parse_pi out r fs ≡ ok p
      → IsCounted (counts_of p.raw)
  unfolding parse_pi
  parse_pi-IsCounted r fs p h =
      >>=-then (pi_fact out.hash out.parse_timestamp r.format (pi_session r.context "") fs) _ h
        λ parsed is_parsed last.
          subst (λ x. IsCounted (counts_of x.raw)) (ok_inj _ p last)
            (pi_fact-IsCounted out.hash out.parse_timestamp _ _ fs parsed is_parsed)

  parse_claude-IsCounted :
      (r : SourceRecord) (fs : Fields) (p : ParsedRecord)
      → parse_claude out r fs ≡ ok p
      → IsCounted (counts_of p.raw)
  unfolding parse_claude
  parse_claude-IsCounted r fs p h =
      >>=-then (claude_fact out.hash out.parse_timestamp r.format "" fs) _ h λ parsed _ h1.
        >>=-then (finalize_claude_fact parsed.0) _ h1 λ settled is_settled last.
          subst (λ x. IsCounted (counts_of x.raw)) (ok_inj _ p last)
            (finalize_claude_fact-IsCounted parsed.0 settled is_settled)

  no_parser : (p : ParsedRecord) → ◌≡◌ {A = Result (List String) ParsedRecord} (err []) (ok p) → ⊥
  no_parser p h = cc

  -- What the parsers of Pi, Claude Code and OpenCode read from a record has no negative count, its counts add
  -- up within `int64`, and a total that they keep is that sum.
  pub parse_raw-IsCounted :
      (r : SourceRecord) (all : List StoredRecord) (fs : Fields) (p : ParsedRecord)
      → (r.harness == "codex") ≡ false
      → parse_raw out r all fs ≡ ok p
      → IsCounted (counts_of p.raw)
  unfolding parse_raw
  parse_raw-IsCounted r all fs p other h = elim (Bool-cases (r.harness == "opencode")) [
    | inl e ↦ parse_opencode-IsCounted r fs p (rw e at h)
    | inr not_opencode ↦ elim (Bool-cases (r.harness == "pi")) [
      | inl e ↦ parse_pi-IsCounted r fs p (rw (not_opencode, e) at h)
      | inr not_pi ↦ elim (Bool-cases (r.harness == "claude-code")) [
        | inl e ↦ parse_claude-IsCounted r fs p (rw (not_opencode, not_pi, e) at h)
        | inr not_claude ↦ absurd (no_parser p (rw (not_opencode, not_pi, not_claude, other) at h))
      ]
    ]
  ]
