-- ===== src/Prelude/Results.antt =====
-- What fallible code returns: an error or a value. A `do` block stops at the first error.
use mathlib.Core.Path.{◌≡◌, refl}
use mathlib.Core.Bool.{Bool, true, false}

pub data Result {ι ℓ} (E : Type ι) (A : Type ℓ) : Type (ι ⊔ ℓ) where
  err : E → Result E A
  ok : A → Result E A

infixl 5 ◌>>=◌ ◌>>◌
module _ {ι} {E : Type ι} where
  -- The check of a condition that the code answers with an error.
  abbrev pub guard : Bool → E → Result E (Unit {0})
  guard false why = err why
  guard true why = ok tt

  pub guard-eq-ok : (test : Bool) (why : E) → guard test why ≡ ok tt → test ≡ true
  guard-eq-ok false why h = cc
  guard-eq-ok true why h = refl

  module _ {ℓ} {A : Type ℓ} where
    err-apart : (why : E) (a : A) → ◌≡◌ {A = Result E A} (err why) (ok a) → ⊥
    err-apart why a h = cc

    pub ok_inj : (a b : A) → ◌≡◌ {A = Result E A} (ok a) (ok b) → a ≡ b
    ok_inj a b h = cc

abbrev pub ◌>>=◌ {ι ℓ κ} :
    {E : Type ι} {A : Type ℓ} {B : Type κ} (first : Result E A) (after : A → Result E B)
    → Result E B
err why >>= after = err why
ok a >>= after = after a

abbrev pub ◌>>◌ {ι κ} :
    {E : Type ι} {B : Type κ} (first : Result E (Unit {0})) (after : Result E B) → Result E B
first >> after = first >>= λ done. after

-- A chain that succeeds went through its first step, which is what the rest of a proof goes on
-- with.
pub >>=-then {ι ℓ κ μ} :
    {E : Type ι} {A : Type ℓ} {B : Type κ} {P : Type μ} (first : Result E A)
    (after : A → Result E B) {b : B}
    → (first >>= after) ≡ ok b
    → ((a : A) → first ≡ ok a → after a ≡ ok b → P)
    → P
>>=-then (err why) after h go = absurd (err-apart why _ h)
>>=-then (ok a) after h go = go a refl h

-- Both steps of a chain that succeeds do.
pub >>-eq-ok {ι κ} :
    {E : Type ι} {B : Type κ} (first : Result E (Unit {0})) (after : Result E B) {b : B}
    → (first >> after) ≡ ok b
    → (first ≡ ok tt) × (after ≡ ok b)
>>-eq-ok (err why) after h = absurd (err-apart why _ h)
>>-eq-ok (ok done) after h = (refl, h)
