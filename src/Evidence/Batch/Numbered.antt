-- ===== src/Evidence/Batch/Numbered.antt =====
-- That the entries of a batch (packages/core/evidence/codec.go) are numbered without a gap.
use tokeninsights.Prelude.{
  ℕ, zero, suc, ◌+◌, ◌≤◌, true, List, [], ◌∷◌, some, get_elem?, length, nat_eq, ◌≡◌, sym, ap, subst,
  arith, ◌∙◌,
}
use tokeninsights.Prelude.Int.{
  ℤ, pos, ◌+ℤ◌, ◌-ℤ◌, ◌≤ℤ◌, int_eq, int_beq_iff, pos_part, neg_part, +ℤ_parts, -ℤ_parts,
  eq_of_parts,
}
use tokeninsights.Prelude.Results.{ok, ok_inj, guard-eq-ok, >>-eq-ok}
use tokeninsights.Evidence.Records.{validate_record}
use tokeninsights.Evidence.Batch.{
  BatchEntry, Batch, check_batch_identity, check_entries, decode_batch,
}

entry_at :
    (from : ℤ) (index : ℕ) (es : List BatchEntry) (i : ℕ) (e : BatchEntry)
    → check_entries from index es ≡ ok tt
    → get_elem? es i ≡ some e
    → (e.sequence ≡ from +ℤ pos (index + i)) × (validate_record e.source ≡ ok tt)
unfolding check_entries
entry_at from index [] i e c at = cc
entry_at from index (x ∷ es) zero e c at =
    let (here, rest) = >>-eq-ok _ _ c in
    let numbered = (int_beq_iff _ _).0 (guard-eq-ok _ "invalid_sequence" here) in
    subst (λ y. (y.sequence ≡ from +ℤ pos (index + 0)) × (validate_record y.source ≡ ok tt))
      (some_inj at) (numbered ∙ ap (λ n. from +ℤ pos n) (plus_zero index), (>>-eq-ok _ _ rest).0)
  where
    some_inj : {x y : BatchEntry} → some x ≡ some y → x ≡ y
    some_inj e = cc

    plus_zero : (n : ℕ) → n ≡ n + 0
    plus_zero n = omega arith
entry_at from index (x ∷ es) (suc i) e c at =
    let (here, rest) = >>-eq-ok _ _ c in
    subst (λ n. (e.sequence ≡ from +ℤ pos n) × (validate_record e.source ≡ ok tt)) (shifted index i)
      (entry_at from (suc index) es i e (>>-eq-ok _ _ rest).1 at)
  where
    shifted : (n i : ℕ) → suc n + i ≡ n + suc i
    shifted n i = omega arith

-- What a batch must be to be taken: between 1 and 256 entries, as many as its numbers say, of which none is
-- 0 or less or leaves 2^53 - 1.
pub record IsNumbered (b : Batch) : Type 0 where
  pub some_entry : 1 ≤ length b.entries
  pub few_entries : length b.entries ≤ 256
  pub from_one : pos 1 ≤ℤ b.from_sequence
  pub in_range : b.to_sequence ≤ℤ pos 9007199254740991
  pub last : b.from_sequence +ℤ pos (length b.entries) ≡ b.to_sequence +ℤ pos 1

identity-IsNumbered : (b : Batch) → check_batch_identity b ≡ true → IsNumbered b
unfolding check_batch_identity
identity-IsNumbered b e = record {
  some_entry = ground arith;
  few_entries = ground arith;
  from_one = ground arith;
  in_range = ground arith;
  last =
      let total : b.to_sequence -ℤ b.from_sequence +ℤ pos 1 ≡ pos (length b.entries) =
        ground arith in
      eq_of_parts _ _ (
        omega (
          arith,
          +ℤ_parts b.from_sequence (pos (length b.entries)),
          +ℤ_parts b.to_sequence (pos 1),
          +ℤ_parts (b.to_sequence -ℤ b.from_sequence) (pos 1),
          -ℤ_parts b.to_sequence b.from_sequence,
          ap pos_part total,
          ap neg_part total,
        ));
}

-- A batch that `DecodeBatch` takes has between 1 and 256 entries, numbered without a gap from its first number
-- to its last, between 1 and 2^53 - 1, and each of them a record that `ValidateRecord` takes.
pub decode_batch-IsNumbered :
    (b c : Batch) (i : ℕ) (e : BatchEntry)
    → decode_batch b ≡ ok c
    → get_elem? b.entries i ≡ some e
    → IsNumbered b
      × (e.sequence ≡ b.from_sequence +ℤ pos i)
      × (validate_record e.source ≡ ok tt)
      × (c ≡ b)
unfolding decode_batch
decode_batch-IsNumbered b c i e taken at =
    let (identity, rest) = >>-eq-ok _ _ (>>-eq-ok _ _ (>>-eq-ok _ _ taken).1).1 in
    let (entries, is_b) = >>-eq-ok _ _ rest in
    let (numbered, checked) = entry_at b.from_sequence 0 b.entries i e entries at in
    (
      identity-IsNumbered b (guard-eq-ok _ "invalid_identity" identity),
      numbered ∙ ap (λ n. b.from_sequence +ℤ pos n) (zero_plus i),
      checked,
      sym (ok_inj _ _ is_b),
    )
  where
    zero_plus : (n : ℕ) → 0 + n ≡ n
    zero_plus n = omega arith
