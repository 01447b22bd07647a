-- ===== src/Processor/Select.antt =====
-- process.go: what `Process` makes of the candidates that share the id of a fact. The hash of the
-- JSON text of a fact is a parameter.
pub mod Settled
use tokeninsights.Prelude.{
  ℕ, zero, suc, ◌+◌, String, Bool, true, false, not, ◌&&◌, ◌||◌, List, [], ◌∷◌, Option, none, some,
  map, ◌==◌, string_eq, length, get_elem?, if◌then◌else◌, codes,
}
use tokeninsights.Prelude.Int.{ℤ, pos, ltb_ℤ, int_eq}
use tokeninsights.CollectorProgress.Snapshot.{codes_lt}
use tokeninsights.Publication.{Fact, FactMessage}

-- evidenceCandidate: the id and the format of the stored record, the fact, and the code of a doubt.
pub record Candidate : Type 0 where
  pub evidence_id : String
  pub format : String
  pub fact : Fact
  pub code : String

pub record Outcome : Type 0 where
  pub evidence_id : String
  pub fact_id : String
  pub disposition : String
  pub code : String

pub record Contribution : Type 0 where
  pub fact : Fact
  pub evidence_ids : List String

pub record Estimate : Type 0 where
  pub evidence_id : String
  pub code : String
  pub fact : Fact

pub record Settlement : Type 0 where
  pub outcomes : List Outcome
  pub contributions : List Contribution
  pub estimates : List Estimate

-- The order of a group.
unfoldable pub sooner : Candidate → Candidate → Bool
sooner a b =
    if not (a.fact.occurred_at_ms == b.fact.occurred_at_ms)
    then ltb_ℤ a.fact.occurred_at_ms b.fact.occurred_at_ms
    else codes_lt (codes a.evidence_id) (codes b.evidence_id)

unfoldable pub place : Candidate → List Candidate → List Candidate
place a [] = a ∷ []
place a (b ∷ bs) = let rest = place a bs in if sooner b a then b ∷ rest else a ∷ b ∷ bs

unfoldable pub sort_group : List Candidate → List Candidate
sort_group [] = []
sort_group (a ∷ as') = place a (sort_group as')

-- The position of the last candidate of which `p` holds, `best` if it holds of none; the list
-- begins at the position `i`.
unfoldable pub last_such : (Candidate → Bool) → ℕ → ℕ → List Candidate → ℕ
last_such p i best [] = best
last_such p i best (c ∷ cs) = last_such p (i + 1) (if p c then i else best) cs

abbrev pub is_clean : Candidate → Bool
is_clean c = c.code == ""

abbrev pub is_v2 : Candidate → Bool
is_v2 c = c.format == "opencode-v2"

abbrev pub harness_at : Option Candidate → String
harness_at none = ""
harness_at (some c) = c.fact.harness

-- The position of the last candidate.
abbrev pub last_position : List Candidate → ℕ
last_position [] = 0
last_position (c ∷ cs) = length cs

unfoldable pub selected_position : List Candidate → ℕ
selected_position group =
    let k = last_such is_clean 0 (last_position group) group in
    if harness_at (get_elem? group k) == "opencode" then last_such is_v2 0 k group else k

module _ (json_hash : Fact → String) where
  abbrev pub untimed : Option FactMessage → Option FactMessage
  untimed none = none
  untimed (some m) = some (record m { occurred_at_ms = pos 0 })

  -- publication.PayloadHash
  unfoldable pub payload_hash : Fact → String
  payload_hash f = json_hash (record f {
    session = record f.session { first_occurred_at_ms = pos 0; last_occurred_at_ms = pos 0 };
    message = untimed f.message;
  })

  -- What is compared of a fact beside one of the harness.
  unfoldable pub usage_of : String → Fact → Fact
  usage_of harness f =
      let f' = record f { location = none } in
      if harness == "claude-code" then record f' { occurred_at_ms = pos 0; revision = none } else f'

  unfoldable pub same_evidence_usage : Fact → Fact → Bool
  same_evidence_usage left right =
      payload_hash (usage_of left.harness left) == payload_hash (usage_of left.harness right)

  -- One turn of the loop that looks for a conflict.
  unfoldable pub conflicts : Candidate → Candidate → Bool
  conflicts selected item =
      if not (item.code == "")
      then false
      else if selected.fact.harness == "opencode" && is_v2 selected && item.format == "opencode-v1"
      then false
      else not (same_evidence_usage item.fact selected.fact)
        && (not (selected.fact.harness == "claude-code")
            || selected.fact.native_request_id == ""
            || item.fact.occurred_at_ms == selected.fact.occurred_at_ms)

  unfoldable pub any_conflict : Candidate → List Candidate → Bool
  any_conflict selected [] = false
  any_conflict selected (item ∷ items) = conflicts selected item || any_conflict selected items

  -- The disposition and the code of an item; `is_selected` is whether it is the selected one.
  unfoldable pub dispose : Bool → Candidate → Bool → Candidate → String × String
  dispose conflict selected is_selected item =
      if conflict
      then ("ambiguous", "conflicting_native_identity")
      else if item.code == "known_duplicate"
      then ("duplicate", "")
      else if item.code == "stale_snapshot"
      then ("superseded", "")
      else if not (item.code == "")
      then ("ambiguous", item.code)
      else if is_selected
      then ("processed", "")
      else if ltb_ℤ item.fact.occurred_at_ms selected.fact.occurred_at_ms
          || not (item.format == selected.format)
      then ("superseded", "")
      else ("duplicate", "")

  unfoldable pub outcome_of : String → Bool → Candidate → Bool → Candidate → Outcome
  outcome_of id conflict selected is_selected item =
      let (disposition, code) = dispose conflict selected is_selected item in
      record {
        evidence_id = item.evidence_id;
        fact_id = id;
        disposition = disposition;
        code = code;
      }

  -- The selected item is at the position, if there is one.
  unfoldable pub outcomes_of : String → Bool → Candidate → Option ℕ → List Candidate → List Outcome
  outcomes_of id conflict selected at' [] = []
  outcomes_of id conflict selected none (c ∷ cs) =
      outcome_of id conflict selected false c ∷ outcomes_of id conflict selected none cs
  outcomes_of id conflict selected (some zero) (c ∷ cs) =
      outcome_of id conflict selected true c ∷ outcomes_of id conflict selected none cs
  outcomes_of id conflict selected (some (suc k)) (c ∷ cs) =
      outcome_of id conflict selected false c ∷ outcomes_of id conflict selected (some k) cs

  unfoldable pub settle_selected : String → ℕ → List Candidate → Candidate → Settlement
  settle_selected id k group selected =
      let conflict = any_conflict selected group in
      let code = if conflict then "conflicting_native_identity" else selected.code in
      record {
        outcomes = outcomes_of id conflict selected (some k) group;
        contributions =
            if code == ""
            then record { fact = selected.fact; evidence_ids = map (λ c. c.evidence_id) group } ∷ []
            else [];
        estimates =
            if not (code == "") && not (code == "known_duplicate") && not (code == "stale_snapshot")
            then record { evidence_id = selected.evidence_id; code = code; fact = selected.fact }
              ∷ []
            else [];
      }

  -- A sorted group. No group of `Process` is empty.
  unfoldable pub settle_sorted : String → List Candidate → Settlement
  settle_sorted id group =
      let k = selected_position group in
      elim (get_elem? group k) [
        | none ↦ record { outcomes = []; contributions = []; estimates = [] }
        | some selected ↦ settle_selected id k group selected
      ]

  unfoldable pub settle_group : String → List Candidate → Settlement
  settle_group id group = settle_sorted id (sort_group group)
