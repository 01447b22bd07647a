-- ===== src/Application/Selection/Dates.antt =====
-- Dates as texts and as days of the calendar.
use tokeninsights.Prelude.{
  ℕ, ◌+◌, ◌-◌, ◌*◌, ◌≤◌, ◌≡◌, Bool, true, false, String, List, [], ◌∷◌, arith, ltb, nat_eq, ◌==◌,
  if◌then◌else◌, codes, ◌≢◌, eq_iff,
}
use tokeninsights.CollectorProgress.Snapshot.{codes_lt}
use tokeninsights.Application.Selection.{
  Selection, validate_selection, is_digit, is_date_codes, is_date, is_after,
}
use tokeninsights.Prelude.Results.{ok}

-- The number that the digits make, read on from `n`; a dash is no digit.
abbrev pub digits_value : ℕ → List ℕ → ℕ
digits_value n [] = n
digits_value n (c ∷ cs) = digits_value (if c == b'-' then n else n * 10 + (c - b'0')) cs

-- The day of the calendar as the number yyyymmdd.
abbrev pub day_number : String → ℕ
day_number day = digits_value 0 (codes day)

-- Digits where the shape has `true`, dashes where it has `false`.
abbrev Fits : List Bool → List ℕ → Type 0
Fits [] [] = Unit
Fits [] (c ∷ cs) = ⊥
Fits (b ∷ bs) [] = ⊥
Fits (true ∷ bs) (c ∷ cs) = (is_digit c ≡ true) × Fits bs cs
Fits (false ∷ bs) (c ∷ cs) = (c ≡ b'-') × Fits bs cs

abbrev date_shape : List Bool
date_shape = true ∷ true ∷ true ∷ true ∷ false ∷ true ∷ true ∷ false ∷ true ∷ true ∷ []

date-Fits : (xs : List ℕ) → is_date_codes xs ≡ true → Fits date_shape xs
unfolding is_date_codes
date-Fits (a ∷ b ∷ c ∷ d ∷ e ∷ f ∷ g ∷ h ∷ i ∷ j ∷ []) p = ground arith
date-Fits _ p = cc

-- Two texts of one shape compare as the numbers that their digits make.
codes_lt-Fits :
    (shape : List Bool) (xs ys : List ℕ) (n m : ℕ)
    → Fits shape xs
    → Fits shape ys
    → (if n == m then codes_lt xs ys else ltb n m) ≡ ltb (digits_value n xs) (digits_value m ys)
unfolding codes_lt
codes_lt-Fits [] [] [] n m f g = ground arith
codes_lt-Fits [] [] (y ∷ ys) n m f g = elim g [ ]
codes_lt-Fits [] (x ∷ xs) ys n m f g = elim f [ ]
codes_lt-Fits (false ∷ bs) [] ys n m f g = elim f [ ]
codes_lt-Fits (false ∷ bs) (x ∷ xs) [] n m f g = elim g [ ]
codes_lt-Fits (true ∷ bs) [] ys n m f g = elim f [ ]
codes_lt-Fits (true ∷ bs) (x ∷ xs) [] n m f g = elim g [ ]
codes_lt-Fits (true ∷ bs) (x ∷ xs) (y ∷ ys) n m f g =
    ground (arith, codes_lt-Fits bs xs ys (n * 10 + (x - b'0')) (m * 10 + (y - b'0')) f.1 g.1)
codes_lt-Fits (false ∷ bs) (x ∷ xs) (y ∷ ys) n m f g =
    ground (arith, codes_lt-Fits bs xs ys n m f.1 g.1)

-- Dates compare as texts just as they do in the calendar.
pub is_after_lem :
    (from to : String)
    → is_date from ≡ true
    → is_date to ≡ true
    → is_after from to ≡ ltb (day_number to) (day_number from)
unfolding is_after is_date
is_after_lem from to p q =
    codes_lt-Fits date_shape (codes to) (codes from) 0 0 (date-Fits (codes to) q)
      (date-Fits (codes from) p)

validate_selection-dates :
    (s : Selection)
    → validate_selection s ≡ ok tt
    → s.from ≢ ""
    → s.to ≢ ""
    → (is_date s.from ≡ true) × (is_date s.to ≡ true) × (is_after s.from s.to ≡ false)
unfolding validate_selection
validate_selection-dates s h from to = ground (arith, h, eq_iff s.from "", eq_iff s.to "")

-- A selection that is accepted, with both bounds given, has two dates, of which the second is not
-- before the first in the calendar.
pub validate_selection_dates_lem :
    (s : Selection)
    → validate_selection s ≡ ok tt
    → s.from ≢ ""
    → s.to ≢ ""
    → (is_date s.from ≡ true) × (is_date s.to ≡ true) × (day_number s.from ≤ day_number s.to)
validate_selection_dates_lem s h from to =
    let (p, q, r) = validate_selection-dates s h from to in
    (p, q, le_of_not_after (is_after_lem s.from s.to p q) r)
  where
    le_of_not_after : {b : Bool} {n m : ℕ} → b ≡ ltb m n → b ≡ false → n ≤ m
    le_of_not_after e f = ground arith
