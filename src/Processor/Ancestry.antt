-- ===== src/Processor/Ancestry.antt =====
-- process.go: `resolveCodexEvidence`, the sessions of Codex in the order of their ancestry. Each
-- session has the items of `sessions`, which the walk replaces by what it makes of them.
pub mod Finished
pub mod Keys
pub mod Ended
pub mod Rooted
pub mod Coded
pub mod Facts
use tokeninsights.Prelude.{
  ℕ, zero, suc, ◌+◌, String, Bool, true, false, not, ◌&&◌, ◌||◌, List, [], ◌∷◌, ◌++◌, Option, none,
  some, is_none, map, length, ◌==◌, string_eq, codes, if◌then◌else◌,
}
use tokeninsights.Prelude.Maps.{Map, lookup, insert}
use tokeninsights.Publication.{Fact}
use tokeninsights.CollectorProgress.Snapshot.{codes_lt}
use tokeninsights.Processor.Native.{
  Native, null, other, number, text, object, Fields, field_of, nested, SourceMetadata,
  metadata_from_payload, text_or,
}
use tokeninsights.Processor.Session.{CodexSnapshot}
use tokeninsights.Processor.Replay.{CodexItem, Proofs, Walk, or_empty, sort_items, walk_items}

-- A record of a Codex source, or one of its contexts: the decoded object and the diagnostics.
pub record Entry : Type 0 where
  pub data' : Fields
  pub diagnostics : List String

abbrev pub raw_text : Option Native → String
raw_text (some (text s)) = s
raw_text _ = ""

unfoldable pub contains : String → List String → Bool
contains s [] = false
contains s (t ∷ ts) = let rest = contains s ts in if t == s then true else rest

-- The metadata, with what those before say of the session.
abbrev pub agree : Option SourceMetadata → SourceMetadata → SourceMetadata
agree none next = next
agree (some previous) next = record next {
  conflict =
      (if not (previous.parent_id == next.parent_id) || not (fork_equal previous.fork next.fork)
        then true
        else next.conflict)
      || previous.conflict;
}
  where
    fork_equal : Bool → Bool → Bool
    fork_equal true b = b
    fork_equal false b = not b

-- One turn of the loop over the contexts of the records.
unfoldable pub note_entry : Entry → Map SourceMetadata → Map SourceMetadata
note_entry entry metadata =
    let next = metadata_from_payload (nested (some entry.data') "payload") "" in
    let forked = record next {
      fork = if contains "native_subagent_present" entry.diagnostics then true else next.fork;
    } in
    if not (raw_text (field_of "type" entry.data') == "session_meta") || next.session_id == ""
    then metadata
    else insert next.session_id (agree (lookup next.session_id metadata) forked) metadata

unfoldable pub gather : List Entry → Map SourceMetadata → Map SourceMetadata
gather [] metadata = metadata
gather (entry ∷ entries) metadata = gather entries (note_entry entry metadata)

-- `sessions` of the candidates
unfoldable pub group_items : List CodexItem → Map (List CodexItem) → Map (List CodexItem)
group_items [] m = m
group_items (item ∷ items) m =
    let session = item.fact.session.native_id in
    group_items items (insert session (items_or_none (lookup session m) ++ item ∷ []) m)
  where
    items_or_none : Option (List CodexItem) → List CodexItem
    items_or_none none = []
    items_or_none (some is) = is

-- What `resolve` shares between its calls.
pub record Ancestry : Type 0 where
  pub proofs : Map Proofs
  pub visiting : Map Bool
  pub done : Map Bool
  pub problems : Map String
  pub sessions : Map (List CodexItem)

-- m[k], false where there is none
abbrev pub flag : Option Bool → Bool
flag none = false
flag (some b) = b

abbrev pub no_metadata : SourceMetadata
no_metadata = record { session_id = ""; parent_id = ""; fork = false; conflict = false }

abbrev pub metadata_or_zero : Option SourceMetadata → SourceMetadata
metadata_or_zero none = no_metadata
metadata_or_zero (some m) = m

abbrev pub items_of : Option (List CodexItem) → List CodexItem
items_of none = []
items_of (some is) = is

module _ (metadata : Map SourceMetadata) where
  abbrev pub meta_of : String → SourceMetadata
  meta_of session = metadata_or_zero (lookup session metadata)

  -- Whether the session has a parent to resolve first.
  unfoldable pub has_parent : String → Bool
  has_parent session =
      (meta_of session).fork
      && not ((meta_of session).parent_id == "")
      && not (is_none (lookup (meta_of session).parent_id metadata))

  -- The problem that the session has by itself.
  unfoldable pub own_problem : String → String
  own_problem session =
      if (meta_of session).fork && not (has_parent session)
      then "missing_parent"
      else if (meta_of session).conflict
      then "conflicting_parent"
      else if is_none (lookup session metadata)
      then "missing_session_context"
      else ""

  module _ (proof_hash : String → String → String → CodexSnapshot → String) where
    -- The walk over the items, and what is noted of the session at the end.
    unfoldable pub finish_session : String → String → Ancestry → Ancestry
    finish_session session problem a =
        let noted = text_or "" (lookup session a.problems) in
        let final = if not (noted == "") then noted else problem in
        let (items, last) =
          walk_items proof_hash session (meta_of session)
            (or_empty (lookup (meta_of session).parent_id a.proofs)) final
            (sort_items (items_of (lookup session a.sessions)))
            (record {
              proofs = or_empty (lookup session a.proofs);
              previous_total = none;
              previous_turn = "";
              seen = [];
            }) in
        record {
          proofs = insert session last.proofs a.proofs;
          visiting = insert session false a.visiting;
          done = insert session true a.done;
          problems = insert session final a.problems;
          sessions = insert session items a.sessions;
        }

    -- What a session takes over from its parent, once that is resolved.
    abbrev pub inherit : String → String → Ancestry → Ancestry
    inherit session parent a =
        if not (text_or "" (lookup parent a.problems) == "") || flag (lookup parent a.visiting)
        then finish_session session "unresolved_parent" a
        else finish_session session (own_problem session)
            (record a { proofs = insert session (or_empty (lookup parent a.proofs)) a.proofs })

    abbrev pub then_inherit : String → String → Option Ancestry → Option Ancestry
    then_inherit session parent none = none
    then_inherit session parent (some a) = some (inherit session parent a)

    -- The session marked as being visited.
    abbrev pub enter : String → Ancestry → Ancestry
    enter session a = record a {
      visiting = insert session true a.visiting;
      proofs = insert session [] a.proofs;
    }

    -- `resolve`; none where the fuel runs out.
    unfoldable pub resolve : ℕ → String → Ancestry → Option Ancestry
    resolve zero session a = none
    resolve (suc fuel) session a =
        let parent = (meta_of session).parent_id in
        let up = then_inherit session parent (resolve fuel parent (enter session a)) in
        if flag (lookup session a.done)
        then some a
        else if flag (lookup session a.visiting)
        then some (record a { problems = insert session "ancestry_cycle" a.problems })
        else if has_parent session
        then up
        else some (finish_session session (own_problem session) (enter session a))

    unfoldable pub resolve_each : ℕ → List String → Ancestry → Option Ancestry
    resolve_each fuel [] a = some a
    resolve_each fuel (key ∷ keys) a = elim (resolve fuel key a) [
      | none ↦ none
      | some b ↦ resolve_each fuel keys b
    ]

-- sort.Strings
unfoldable pub place_key : String → List String → List String
place_key k [] = k ∷ []
place_key k (j ∷ js) =
    let rest = place_key k js in if codes_lt (codes j) (codes k) then j ∷ rest else k ∷ j ∷ js

unfoldable pub sort_keys : List String → List String
sort_keys [] = []
sort_keys (k ∷ ks) = place_key k (sort_keys ks)

-- `resolveCodexEvidence`: every session in the order of the ids. One turn of `resolve` marks one
-- more session of the metadata, so that a turn more than there are of them is enough for the
-- last.
unfoldable pub resolve_codex_evidence :
    (String → String → String → CodexSnapshot → String)
    → List Entry
    → List CodexItem
    → Option Ancestry
resolve_codex_evidence proof_hash entries items =
    let metadata = gather entries [] in
    let sessions = group_items items [] in
    resolve_each metadata proof_hash (length metadata + 1) (sort_keys (map (λ s. s.0) sessions))
      (record { proofs = []; visiting = []; done = []; problems = []; sessions = sessions })
