-- ===== src/Processor/Parse/Doubt.antt =====
-- What it takes of a record and of its diagnostics that `parseEvidence` has no reason to doubt the fact.
use tokeninsights.Prelude.{
  ℕ, codes, String, Bool, true, false, not, ◌||◌, List, [], ◌∷◌, ◌++◌, Option, none, some, All,
  nat_eq, string_eq, ◌≡◌, refl, sym, subst, arith, eq_iff, Option-cases, inl, inr,
}
use tokeninsights.Evidence.Json.{Json, Members, FieldPath, leaf}
use tokeninsights.Evidence.Records.{same}
use tokeninsights.Evidence.Sanitize.{starts_with, contains_text}
use tokeninsights.Processor.Parse.{named_value, group_conflicts, any_group_conflicts}
use tokeninsights.Processor.Parse.Candidate.{is_doubtful, any_doubtful, any_fault}

-- The word stands somewhere in the text.
abbrev pub Mentions : String → String → Type 0
Mentions word s = (before : List ℕ) × (after : List ℕ) × (codes s ≡ before ++ (codes word ++ after))

-- A diagnostic that says nothing against the counters.
pub record IsUndoubted (diagnostic : String) : Type 0 where
  pub not_negative : ¬ (Mentions "negative" diagnostic)
  pub not_invalid : ¬ (Mentions "invalid" diagnostic)
  pub not_inconsistent : ¬ (Mentions "inconsistent" diagnostic)

-- The values that the record has under the names of a group, in their order.
abbrev pub named_values : Members → List FieldPath → List Json
named_values ms [] = []
named_values ms (path ∷ rest) = elim (named_value (leaf path ms)) [
  | none ↦ named_values ms rest
  | some v ↦ v ∷ named_values ms rest
]

-- Each value is the same as the one before it.
abbrev pub AreAlike : List Json → Type 0
AreAlike (v ∷ w ∷ vs) = (same w v ≡ true) × AreAlike (w ∷ vs)
AreAlike _ = Unit

starts_with_append : (part after : List ℕ) → starts_with part (part ++ after) ≡ true
unfolding starts_with
starts_with_append [] after = refl
starts_with_append (p ∷ part) after = ground (arith, starts_with_append part after)

contains_text_begin : (part cs : List ℕ) → starts_with part cs ≡ true → contains_text part cs ≡ true
unfolding contains_text
contains_text_begin part [] h = h
contains_text_begin part (c ∷ cs) h = rw h refl

contains_text_append :
    (before part after : List ℕ) → contains_text part (before ++ (part ++ after)) ≡ true
unfolding contains_text
contains_text_append [] part after =
    contains_text_begin part (part ++ after) (starts_with_append part after)
contains_text_append (b ∷ before) part after =
    ground (arith, contains_text_append before part after)

not_mentioned :
    (word s : String) → contains_text (codes word) (codes s) ≡ false → ¬ (Mentions word s)
not_mentioned word s h (before, after, e) =
    apart (sym (subst (λ cs. contains_text (codes word) cs ≡ false) e h))
  where
    apart : false ≡ contains_text (codes word) (before ++ (codes word ++ after)) → ⊥
    apart k = cc (k, contains_text_append before (codes word) after)

is_doubtful-IsUndoubted : (d : String) → is_doubtful d ≡ false → IsUndoubted d
unfolding is_doubtful
is_doubtful-IsUndoubted d h = record {
  not_negative = not_mentioned "negative" d (ground arith);
  not_invalid = not_mentioned "invalid" d (ground arith);
  not_inconsistent = not_mentioned "inconsistent" d (ground arith);
}

pub any_doubtful-IsUndoubted : (ds : List String) → any_doubtful ds ≡ false → All IsUndoubted ds
unfolding any_doubtful
any_doubtful-IsUndoubted [] h = tt
any_doubtful-IsUndoubted (d ∷ ds) h =
    (is_doubtful-IsUndoubted d (ground arith), any_doubtful-IsUndoubted ds (ground arith))

pub any_fault_lem :
    (ds : List String) → any_fault ds ≡ false → All (λ d. d ≡ "native_subagent_present") ds
unfolding any_fault
any_fault_lem [] h = tt
any_fault_lem (d ∷ ds) h =
    ((eq_iff d "native_subagent_present").0 (ground arith), any_fault_lem ds (ground arith))

-- The values of a group that come after `previous`.
abbrev AreAlikeAfter : Option Json → List Json → Type 0
AreAlikeAfter none vs = AreAlike vs
AreAlikeAfter (some v) vs = AreAlike (v ∷ vs)

group_conflicts-AreAlike :
    (ms : Members) (previous : Option Json) (group : List FieldPath)
    → group_conflicts ms previous group ≡ false
    → AreAlikeAfter previous (named_values ms group)
unfolding group_conflicts
group_conflicts-AreAlike ms none [] h = tt
group_conflicts-AreAlike ms (some v) [] h = tt
group_conflicts-AreAlike ms none (path ∷ rest) h =
    elim (Option-cases (named_value (leaf path ms))) [
      | inl unnamed ↦
          rw (unnamed, named_values)
            (group_conflicts-AreAlike ms none rest (rw (unnamed, group_conflicts) at h))
      | inr (v, named) ↦
          rw (named, named_values)
            (group_conflicts-AreAlike ms (some v) rest (rw (named, group_conflicts) at h))
    ]
group_conflicts-AreAlike ms (some w) (path ∷ rest) h =
    elim (Option-cases (named_value (leaf path ms))) [
      | inl unnamed ↦
          rw (unnamed, named_values)
            (group_conflicts-AreAlike ms (some w) rest (rw (unnamed, group_conflicts) at h))
      | inr (v, named) ↦
          let (alike, later) =
            both (same v w) (group_conflicts ms (some v) rest) (rw (named, group_conflicts) at h) in
          rw (named, named_values) (alike, group_conflicts-AreAlike ms (some v) rest later)
    ]
  where
    both : (b c : Bool) → not b || c ≡ false → (b ≡ true) × (c ≡ false)
    both b c k = ground (arith, k)

pub any_group_conflicts-AreAlike :
    (ms : Members) (groups : List (List FieldPath))
    → any_group_conflicts ms groups ≡ false
    → All (λ group. AreAlike (named_values ms group)) groups
unfolding any_group_conflicts
any_group_conflicts-AreAlike ms [] h = tt
any_group_conflicts-AreAlike ms (group ∷ groups) h = (
  group_conflicts-AreAlike ms none group (ground arith),
  any_group_conflicts-AreAlike ms groups (ground arith),
)
