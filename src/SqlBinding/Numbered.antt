-- ===== src/SqlBinding/Numbered.antt =====
-- What `Bind` makes of a statement, by a description that knows no doubled quotes.
use tokeninsights.Prelude.{
  ℕ, suc, true, false, List, [], ◌∷◌, ◌++◌, Option, none, some, ◌≡◌, refl, ap, sym, subst, arith,
  Bool-cases, inl, inr, ◌==◌, nat_eq, if◌then◌else◌,
}
use tokeninsights.SqlBinding.{is_quote, placeholder, bind_from, bind}

-- A statement is made of characters that stay and of parameters.
pub data Piece : Type 0 where
  kept : ℕ → Piece
  parameter : Piece

-- The quote in which the text after a character is: the same one ends it, and outside any quote begins one.
abbrev pub after : Option ℕ → ℕ → Option ℕ
after (some q) c = if c == q then none else some q
after none c = if is_quote c then some c else none

abbrev pub piece : Option ℕ → ℕ → Piece
piece (some q) c = kept c
piece none c = if c == b'?' then parameter else kept c

unfoldable pub pieces : Option ℕ → List ℕ → List Piece
pieces quote [] = []
pieces quote (c ∷ rest) = piece quote c ∷ pieces (after quote c) rest

-- The parameters numbered in their order.
unfoldable pub numbered : ℕ → List Piece → List ℕ
numbered index [] = []
numbered index (kept c ∷ rest) = c ∷ numbered index rest
numbered index (parameter ∷ rest) = placeholder (suc index) ++ numbered (suc index) rest

-- A quote that began is a quote.
abbrev IsOpen : Option ℕ → Type 0
IsOpen none = Unit
IsOpen (some q) = is_quote q ≡ true

no_mark : (q : ℕ) → is_quote q ≡ true → (q == b'?') ≡ false
no_mark q h = ground arith

same_code : (d q : ℕ) → (d == q) ≡ true → d ≡ q
same_code d q h = ground arith

-- A quote that begins is kept, and the text after it is in it.
opening :
    (q index : ℕ) (rest : List ℕ)
    → is_quote q ≡ true
    → bind_from (some q) index rest ≡ numbered index (pieces (some q) rest)
    → (q ∷ bind_from (some q) index rest) ≡ numbered index (pieces none (q ∷ rest))
unfolding pieces numbered
opening q index rest h e = rw (no_mark q h, h) (ap (λ r. q ∷ r) e)

bind_from_lem :
    (quote : Option ℕ) (index : ℕ) (cs : List ℕ)
    → IsOpen quote
    → bind_from quote index cs ≡ numbered index (pieces quote cs)
unfolding bind_from pieces numbered
bind_from_lem none index [] begun = refl
bind_from_lem (some q) index [] begun = refl
bind_from_lem (some q) index (c ∷ []) begun = refl
bind_from_lem (some q) index (c ∷ d ∷ rest) begun = elim (Bool-cases (c == q)) [
  | inl ends ↦ elim (Bool-cases (d == q)) [
    | inl again ↦
        rw (ends, again)
          (ap (λ r. c ∷ r)
            (subst
              (λ x. (q ∷ bind_from (some q) index rest) ≡ numbered index (pieces none (x ∷ rest)))
              (sym (same_code d q again))
              (opening q index rest begun (bind_from_lem (some q) index rest begun))))
    | inr apart ↦ rw (ends, apart) (ap (λ r. c ∷ r) (bind_from_lem none index (d ∷ rest) tt))
  ]
  | inr inside ↦ rw inside (ap (λ r. c ∷ r) (bind_from_lem (some q) index (d ∷ rest) begun))
]
bind_from_lem none index (c ∷ rest) begun = elim (Bool-cases (is_quote c)) [
  | inl begins ↦
      rw (begins, no_mark c begins) (ap (λ r. c ∷ r) (bind_from_lem (some c) index rest begins))
  | inr outside ↦ elim (Bool-cases (c == b'?')) [
    | inl mark ↦
        rw (outside, mark)
          (ap (λ r. placeholder (suc index) ++ r) (bind_from_lem none (suc index) rest tt))
    | inr plain ↦ rw (outside, plain) (ap (λ r. c ∷ r) (bind_from_lem none index rest tt))
  ]
]

-- `Bind` numbers from one on exactly the question marks that stand in no quotes, in their order, and keeps the rest,
-- where a doubled quote is the end of one and the beginning of another.
pub bind-numbered : (query : List ℕ) → bind query ≡ numbered 0 (pieces none query)
unfolding bind
bind-numbered query = bind_from_lem none 0 query tt
