-- ===== src/Processor/Replay.antt =====
-- process.go: how the token counts of one Codex session are told from copies of its ancestors'
-- history. The hash of what identifies a snapshot is a parameter.
pub mod Coded
pub mod Facts
use tokeninsights.Prelude.{
  ℕ, zero, suc, String, Bool, true, false, not, ◌&&◌, ◌||◌, List, [], ◌∷◌, ◌++◌, Option, none, some,
  is_none, filter, ◌==◌, nat_eq, string_eq, codes, if◌then◌else◌,
}
use tokeninsights.Prelude.Int.{ℤ, ltb_ℤ, int_eq}
use tokeninsights.Prelude.Maps.{Map, lookup, insert}
use tokeninsights.Publication.{Fact, FactMessage}
use tokeninsights.CollectorProgress.Snapshot.{codes_lt}
use tokeninsights.Processor.Tokens.{CodexTokenCounts, less_than}
use tokeninsights.Processor.Native.{SourceMetadata, text_or}
use tokeninsights.Processor.Session.{CodexSnapshot, CodexCandidate}

-- A candidate of Codex: the id and the ordinal of its record, its fact, its code and what was
-- parsed.
pub record CodexItem : Type 0 where
  pub evidence_id : String
  pub ordinal : ℤ
  pub fact : Fact
  pub code : String
  pub codex : CodexCandidate

-- The facts that prove a fingerprint, by their ids.
abbrev pub Proofs : Type 0
Proofs = Map (Map Fact)

-- m[k], empty where there is none
abbrev pub or_empty {ℓ} : {V : Type ℓ} → Option (Map V) → Map V
or_empty none = []
or_empty (some m) = m

-- `intPointersEqual`
unfoldable pub equal_ints : Option ℤ → Option ℤ → Bool
equal_ints none none = true
equal_ints none (some r) = false
equal_ints (some l) none = false
equal_ints (some l) (some r) = l == r

-- `codexTokenCounts.equal`
unfoldable pub equal_counts : CodexTokenCounts → CodexTokenCounts → Bool
equal_counts c d =
    equal_ints c.input d.input
    && equal_ints c.output d.output
    && equal_ints c.reasoning d.reasoning
    && equal_ints c.cache_read d.cache_read
    && equal_ints c.total d.total

-- strings.HasPrefix
unfoldable pub has_prefix : List ℕ → List ℕ → Bool
has_prefix s [] = true
has_prefix [] (d ∷ ds) = false
has_prefix (c ∷ cs) (d ∷ ds) = let rest = has_prefix cs ds in if c == d then rest else false

-- The order of the items of a session.
unfoldable pub item_before : CodexItem → CodexItem → Bool
item_before a b =
    if not (a.fact.occurred_at_ms == b.fact.occurred_at_ms)
    then ltb_ℤ a.fact.occurred_at_ms b.fact.occurred_at_ms
    else if not (a.ordinal == b.ordinal)
    then ltb_ℤ a.ordinal b.ordinal
    else codes_lt (codes a.evidence_id) (codes b.evidence_id)

unfoldable pub place_item : CodexItem → List CodexItem → List CodexItem
place_item a [] = a ∷ []
place_item a (b ∷ bs) =
    let rest = place_item a bs in if item_before b a then b ∷ rest else a ∷ b ∷ bs

unfoldable pub sort_items : List CodexItem → List CodexItem
sort_items [] = []
sort_items (a ∷ as') = place_item a (sort_items as')

-- What the loop over the items of a session carries; `seen` has the codes of the items seen.
pub record Walk : Type 0 where
  pub proofs : Proofs
  pub previous_total : Option CodexTokenCounts
  pub previous_turn : String
  pub seen : Map String

-- The facts of other sessions.
unfoldable pub inherited : String → Map Fact → Map Fact
inherited session m = filter (λ entry. not (entry.1.session.native_id == session)) m

-- Whether the message stands in the turn.
abbrev pub in_turn : List ℕ → Option FactMessage → Bool
in_turn turn none = false
in_turn turn (some m) = has_prefix (codes m.native_id) turn

unfoldable pub any_fact : (Fact → Bool) → Map Fact → Bool
any_fact p [] = false
any_fact p ((id, f) ∷ m) = p f || any_fact p m

unfoldable pub any_proof : (Fact → Bool) → Proofs → Bool
any_proof p [] = false
any_proof p ((fingerprint, m) ∷ rest) = any_fact p m || any_proof p rest

-- turn + ":"
abbrev pub turn_prefix : String → List ℕ
turn_prefix turn = codes turn ++ b':' ∷ []

module _ (proof_hash : String → String → String → CodexSnapshot → String) where
  -- `CodexReplayFingerprint`
  abbrev pub fingerprint_of :
      Bool → Option String → Option String → Option String → CodexSnapshot → String
  fingerprint_of true (some turn) (some provider) (some model) snapshot =
      proof_hash turn provider model snapshot
  fingerprint_of _ _ _ _ _ = ""

  unfoldable pub replay_fingerprint : CodexCandidate → String
  replay_fingerprint c =
      fingerprint_of c.replay_valid c.turn_id c.fact.provider c.fact.model c.snapshot

  module _ (session : String) (meta : SourceMetadata) (parent_proofs : Proofs)
      (problem : String) where
    -- The code of an item that is no repetition; `doubtful` is whether several facts were
    -- inherited.
    unfoldable pub judged_code : String → Bool → CodexItem → String
    judged_code fingerprint doubtful item =
        if not (problem == "")
        then problem
        else if fingerprint == ""
        then "unverifiable_snapshot"
        else if doubtful
        then "ambiguous_parent_fact"
        else if meta.fork
            && any_proof (λ f. in_turn (turn_prefix (text_or "" item.codex.turn_id)) f.message)
                parent_proofs
        then "uncertain_replay_boundary"
        else item.code

    abbrev pub coded : CodexItem → String → Walk → CodexItem × Walk
    coded item code w =
        (record item { code = code }, record w { seen = insert item.fact.id code w.seen })

    unfoldable pub judge : String → Bool → CodexItem → Walk → CodexItem × Walk
    judge fingerprint doubtful item w =
        let code = judged_code fingerprint doubtful item in
        coded item code (record w {
          proofs =
              if code == "" && not (fingerprint == "")
              then insert fingerprint
                  (insert item.fact.id item.fact (or_empty (lookup fingerprint w.proofs))) w.proofs
              else w.proofs;
        })

    -- The cumulative counts of an item beside the previous ones.
    abbrev pub compare_totals :
        Option CodexTokenCounts
        → Option CodexTokenCounts
        → String
        → Bool
        → CodexItem
        → Walk
        → CodexItem × Walk
    compare_totals previous none fingerprint doubtful item w = judge fingerprint doubtful item w
    compare_totals none (some c) fingerprint doubtful item w =
        judge fingerprint doubtful item (record w { previous_total = some c })
    compare_totals (some p) (some c) fingerprint doubtful item w =
        if equal_counts p c
        then coded item "known_duplicate" w
        else if less_than c p
        then coded item "stale_snapshot" w
        else judge fingerprint doubtful item (record w { previous_total = some c })

    -- An item whose fact was not seen before.
    unfoldable pub count_item : String → Bool → CodexItem → Walk → CodexItem × Walk
    count_item fingerprint doubtful item w =
        let turn = text_or "" item.codex.turn_id in
        let previous =
          if meta.fork && not (turn == w.previous_turn) then none else w.previous_total in
        compare_totals previous item.codex.cumulative fingerprint doubtful item
          (record w { previous_total = previous; previous_turn = turn })

    -- An item by the code of the one seen with its fact, if there is one.
    abbrev pub meet_item : Option String → String → Bool → CodexItem → Walk → CodexItem × Walk
    meet_item (some previous) fingerprint doubtful item w =
        (record item { code = if not (previous == "") then previous else item.code }, w)
    meet_item none fingerprint doubtful item w = count_item fingerprint doubtful item w

    -- An item by the facts that it may copy.
    abbrev pub copy_item : Map Fact → String → CodexItem → Walk → CodexItem × Walk
    copy_item [] fingerprint item w =
        meet_item (lookup item.fact.id w.seen) fingerprint false item w
    copy_item ((id, original) ∷ []) fingerprint item w =
        (record item { fact = original; code = "known_duplicate" }, w)
    copy_item (one ∷ two ∷ more) fingerprint item w =
        meet_item (lookup item.fact.id w.seen) fingerprint true item w

    unfoldable pub walk_item : CodexItem → Walk → CodexItem × Walk
    walk_item item w =
        let fingerprint = replay_fingerprint item.codex in
        copy_item (inherited session (or_empty (lookup fingerprint w.proofs))) fingerprint item w

    -- The loop over the sorted items.
    unfoldable pub walk_items : List CodexItem → Walk → List CodexItem × Walk
    walk_items [] w = ([], w)
    walk_items (item ∷ items) w =
        let (walked, next) = walk_item item w in
        let (rest, last) = walk_items items next in (walked ∷ rest, last)
