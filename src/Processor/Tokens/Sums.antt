-- ===== src/Processor/Tokens/Sums.antt =====
-- `TokenComponentSum` and the sum of integers.
use tokeninsights.Prelude.{
  false, ◌||◌, List, [], ◌∷◌, Option, none, some, ◌≡◌, sym, ap, subst, ◌∙◌, arith, All, Bool-cases,
  inl, inr,
}
use tokeninsights.Prelude.Int.{
  ℤ, pos, ◌+ℤ◌, ◌-ℤ◌, ◌≤ℤ◌, ltb_ℤ, +ℤ_parts, -ℤ_parts, +ℤ_assoc, +ℤ_zero, zero_+ℤ,
}
use tokeninsights.Processor.Json.{max_int64}
use tokeninsights.Processor.Tokens.{sum_from, token_component_sum}

abbrev pub IsNatural : Option ℤ → Type 0
IsNatural none = Unit
IsNatural (some v) = pos 0 ≤ℤ v

-- The sum of what is there.
abbrev pub plain_total : List (Option ℤ) → ℤ
plain_total [] = pos 0
plain_total (none ∷ vs) = plain_total vs
plain_total (some v ∷ vs) = v +ℤ plain_total vs

not_some : (result : ℤ) → Option.none ≡ some result → ⊥
not_some result e = cc

some_injective : (a b : ℤ) → some a ≡ some b → a ≡ b
some_injective a b e = cc

total_natural : (vs : List (Option ℤ)) → All IsNatural vs → pos 0 ≤ℤ plain_total vs
total_natural [] h = omega arith
total_natural (none ∷ vs) (_, h) = total_natural vs h
total_natural (some v ∷ vs) (p, h) = omega (arith, +ℤ_parts v (plain_total vs), total_natural vs h)

accepted :
    (total v : ℤ)
    → (ltb_ℤ v (pos 0) || ltb_ℤ (pos max_int64 -ℤ total) v) ≡ false
    → (pos 0 ≤ℤ v) × (total +ℤ v ≤ℤ pos max_int64)
accepted total v h = ground (arith, -ℤ_parts (pos max_int64) total, +ℤ_parts total v)

accepts :
    (total v : ℤ)
    → pos 0 ≤ℤ v
    → total +ℤ v ≤ℤ pos max_int64
    → (ltb_ℤ v (pos 0) || ltb_ℤ (pos max_int64 -ℤ total) v) ≡ false
accepts total v h k = ground (arith, -ℤ_parts (pos max_int64) total, +ℤ_parts total v)

sum_from_sound :
    (total result : ℤ) (vs : List (Option ℤ))
    → total ≤ℤ pos max_int64
    → sum_from total vs ≡ some result
    → All IsNatural vs × (result ≡ total +ℤ plain_total vs) × (result ≤ℤ pos max_int64)
unfolding sum_from
sum_from_sound total result [] fits e =
    let same = some_injective total result e in
    (tt, sym same ∙ sym (+ℤ_zero total), subst (λ r. r ≤ℤ pos max_int64) same fits)
sum_from_sound total result (none ∷ vs) fits e =
    let (natural, same, most) = sum_from_sound total result vs fits e in ((tt, natural), same, most)
sum_from_sound total result (some v ∷ vs) fits e =
    elim (Bool-cases (ltb_ℤ v (pos 0) || ltb_ℤ (pos max_int64 -ℤ total) v)) [
      | inl bad ↦ absurd (not_some result (rw bad at e))
      | inr good ↦
          let (least, room) = accepted total v good in
          let (natural, same, most) = sum_from_sound (total +ℤ v) result vs room (rw good at e) in
          ((least, natural), same ∙ +ℤ_assoc total v (plain_total vs), most)
    ]

sum_from_complete :
    (total : ℤ) (vs : List (Option ℤ))
    → All IsNatural vs
    → total +ℤ plain_total vs ≤ℤ pos max_int64
    → sum_from total vs ≡ some (total +ℤ plain_total vs)
unfolding sum_from
sum_from_complete total [] h fits = ap some (sym (+ℤ_zero total))
sum_from_complete total (none ∷ vs) (_, h) fits = sum_from_complete total vs h fits
sum_from_complete total (some v ∷ vs) (p, h) fits =
    let rest = plain_total vs in
    let moved = sym (+ℤ_assoc total v rest) in
    let room : total +ℤ v ≤ℤ pos max_int64 =
      omega (
        arith,
        +ℤ_parts total v,
        +ℤ_parts v rest,
        +ℤ_parts total (v +ℤ rest),
        total_natural vs h,
      ) in
    rw (accepts total v p room) (
      sum_from_complete (total +ℤ v) vs h (subst (λ s. s ≤ℤ pos max_int64) moved fits)
      ∙ ap some (sym moved))

-- `TokenComponentSum` returns a total exactly if no component is negative and the sum of those that
-- are there is at most 2^63 - 1, and then that sum: no addition of the loop leaves `int64`.
pub token_component_sum_lem :
    (values : List (Option ℤ))
    → ((total : ℤ)
        → token_component_sum values ≡ some total
        → All IsNatural values × (total ≡ plain_total values) × (total ≤ℤ pos max_int64))
      × (All IsNatural values
          → plain_total values ≤ℤ pos max_int64
          → token_component_sum values ≡ some (plain_total values))
unfolding token_component_sum
token_component_sum_lem values = (
  λ total e.
      let (natural, same, most) = sum_from_sound (pos 0) total values (omega arith) e in
      (natural, same ∙ zero_+ℤ (plain_total values), most),
  λ h fits.
      sum_from_complete (pos 0) values h
        (subst (λ s. s ≤ℤ pos max_int64) (sym (zero_+ℤ (plain_total values))) fits)
      ∙ ap some (zero_+ℤ (plain_total values)),
)
