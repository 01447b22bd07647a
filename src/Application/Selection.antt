-- ===== src/Application/Selection.antt =====
-- packages/core/analytics/selection.go: the selection of a period and of filters. A date is a
-- text, as the viewer wrote it.
pub mod Dates
use tokeninsights.Prelude.{
  ℕ, ◌+◌, ◌-◌, ◌*◌, ◌/◌, ◌%◌, String, Bool, true, false, not, ◌&&◌, ◌||◌, List, [], ◌∷◌, ◌==◌,
  nat_eq, string_eq, leb, one_of, codes, if◌then◌else◌,
}
use tokeninsights.Prelude.Results.{Result, ok, err, ◌>>=◌, ◌>>◌, guard}
use tokeninsights.CollectorProgress.Snapshot.{codes_lt}

pub record Selection : Type 0 where
  pub period : String
  pub bucket : String
  pub from : String
  pub to : String
  pub providers : List String
  pub models : List String
  pub harnesses : List String
  pub sessions : List String

-- The error texts, by what they name.
pub data SelectionError : Type 0 where
  bad_period bad_bucket bad_date bad_harness : String → SelectionError
  from_after_to : SelectionError

abbrev pub is_leap : ℕ → Bool
is_leap y = (y % 4 == 0) && (not (y % 100 == 0) || y % 400 == 0)

-- The days of a month: 31 in the odd months before August and the even ones from it on.
abbrev pub days_in : ℕ → ℕ → ℕ
days_in m year = if m == 2 then (if is_leap year then 29 else 28) else 30 + (m + m / 8) % 2

abbrev pub is_digit : ℕ → Bool
is_digit c = leb b'0' c && leb c b'9'

abbrev pub two : ℕ → ℕ → ℕ
two a b = (a - b'0') * 10 + (b - b'0')

-- time.Parse(time.DateOnly, day), whether it succeeds: four digits, two and two, between dashes,
-- of a day that there is.
unfoldable pub is_date_codes : List ℕ → Bool
is_date_codes (a ∷ b ∷ c ∷ d ∷ e ∷ f ∷ g ∷ h ∷ i ∷ j ∷ []) =
    is_digit a
    && is_digit b
    && is_digit c
    && is_digit d
    && (e == b'-')
    && is_digit f
    && is_digit g
    && (h == b'-')
    && is_digit i
    && is_digit j
    && leb 1 (two f g)
    && leb (two f g) 12
    && leb 1 (two i j)
    && leb (two i j) (days_in (two f g) (two a b * 100 + two c d))
is_date_codes _ = false

unfoldable pub is_date : String → Bool
is_date day = is_date_codes (codes day)

unfoldable pub is_one_of : List String → String → Bool
is_one_of names value = one_of names value

abbrev pub periods : List String
periods = "today" ∷ "yesterday" ∷ "week" ∷ "month" ∷ "year" ∷ "all" ∷ []

abbrev pub buckets : List String
buckets = "day" ∷ "week" ∷ "month" ∷ "year" ∷ []

abbrev pub harness_names : List String
harness_names = "opencode" ∷ "pi" ∷ "codex" ∷ "claude-code" ∷ []

-- A bound that is not given is the empty text.
abbrev pub check_date : String → Result SelectionError (Unit {0})
check_date day = guard (day == "" || is_date day) (bad_date day)

unfoldable pub check_harnesses : List String → Result SelectionError (Unit {0})
check_harnesses [] = ok tt
check_harnesses (h ∷ hs) =
    let rest = check_harnesses hs in if is_one_of harness_names h then rest else err (bad_harness h)

-- s.From > s.To
unfoldable pub is_after : String → String → Bool
is_after from to = codes_lt (codes to) (codes from)

-- `Selection.Validate`
unfoldable pub validate_selection : Selection → Result SelectionError (Unit {0})
validate_selection s = do
  guard (is_one_of periods s.period) (bad_period s.period)
  guard (is_one_of buckets s.bucket) (bad_bucket s.bucket)
  check_date s.from
  check_date s.to
  guard (s.from == "" || s.to == "" || not (is_after s.from s.to)) from_after_to
  check_harnesses s.harnesses
