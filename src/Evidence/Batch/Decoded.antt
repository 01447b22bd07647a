-- ===== src/Evidence/Batch/Decoded.antt =====
-- That no object of a decoded text (packages/core/evidence/codec.go) names a field twice.
use tokeninsights.Prelude.{
  ℕ, suc, String, true, not, List, [], ◌∷◌, none, ◌==◌, string_eq, ◌≡◌, refl, sym, eq_iff,
  Bool-cases, inl, inr,
}
use tokeninsights.Prelude.Results.{ok, ok_inj, guard-eq-ok, >>-eq-ok}
use tokeninsights.Evidence.Json.{
  Json, null, truth, number, text, array, object, Members, end, member, value_of,
}
use tokeninsights.Evidence.Json.Leaves.{AllUnique, AllUniqueMembers}
use tokeninsights.Evidence.Batch.{unique_value, unique_members, stands, strict_decode}

key_stands : (key : String) (ks : List String) → stands key (key ∷ ks) ≡ true
key_stands key ks = rw ((eq_iff key key).1 refl) refl

still_stands :
    (key k : String) (ks : List String) → stands key ks ≡ true → stands key (k ∷ ks) ≡ true
still_stands key k ks e = elim (Bool-cases (k == key)) [
  | inl same ↦ rw same refl
  | inr other ↦ rw (other, e) refl
]

seen_once :
    (depth : ℕ) (key : String) (seen : List String) (ms : Members)
    → unique_members depth seen ms ≡ ok tt
    → stands key seen ≡ true
    → value_of key ms ≡ none
unfolding unique_value value_of
seen_once depth key seen end e s = refl
seen_once depth key seen (member k v rest) e s =
    let (fresh, more) = >>-eq-ok _ _ e in
    let later =
      seen_once depth key (k ∷ seen) rest (>>-eq-ok _ _ more).1 (still_stands key k seen s) in
    elim (Bool-cases (k == key)) [
      | inl same ↦ absurd (twice (guard-eq-ok _ "duplicate_field" fresh) ((eq_iff k key).0 same))
      | inr other ↦ rw (later, other) refl
    ]
  where
    twice : not (stands k seen) ≡ true → k ≡ key → ⊥
    twice free same = cc (rw (same, s) at free)

mutual
  unfolding unique_value

  unique_value-AllUnique : (depth : ℕ) (v : Json) → unique_value depth v ≡ ok tt → AllUnique v
  unique_value-AllUnique depth null e = tt
  unique_value-AllUnique depth (truth b) e = tt
  unique_value-AllUnique depth (number n) e = tt
  unique_value-AllUnique depth (text s) e = tt
  unique_value-AllUnique depth (array xs) e = tt
  unique_value-AllUnique depth (object ms) e =
      unique_members-AllUnique depth [] ms (>>-eq-ok _ _ e).1

  unique_members-AllUnique :
      (depth : ℕ) (seen : List String) (ms : Members)
      → unique_members depth seen ms ≡ ok tt
      → AllUniqueMembers ms
  unique_members-AllUnique depth seen end e = tt
  unique_members-AllUnique depth seen (member key v rest) e =
      let (fresh, more) = >>-eq-ok _ _ e in
      let (inner, others) = >>-eq-ok _ _ more in
      (
        seen_once depth key (key ∷ seen) rest others (key_stands key seen),
        unique_value-AllUnique (suc depth) v inner,
        unique_members-AllUnique depth (key ∷ seen) rest others,
      )

-- What `StrictDecode` lets through names no field twice in any object outside lists.
pub strict_decode-AllUnique :
    (bytes : ℕ) (v w : Json) → strict_decode bytes v ≡ ok w → AllUnique v × (w ≡ v)
unfolding strict_decode
strict_decode-AllUnique bytes v w e =
    let (checked, same) = >>-eq-ok _ _ (>>-eq-ok _ _ e).1 in
    (unique_value-AllUnique 0 v checked, sym (ok_inj _ _ same))
