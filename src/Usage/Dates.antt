-- ===== src/Usage/Dates.antt =====
-- Dates as internal/usage formats and parses them, `2006-01-02`. A date is the number
-- year * 10000 + month * 100 + day, which orders dates as time.Time does.
use agentic_demo.Prelude.{
  ℕ, ◌+◌, ◌-◌, ◌*◌, ◌%◌, Bool, ◌&&◌, ◌||◌, Option, none, some, [], ◌∷◌, Text, leb, ◌==◌,
  if◌then◌else◌, not,
}

abbrev pub is_digit : ℕ → Bool
is_digit c = leb b'0' c && leb c b'9'

unfoldable pub is_leap : ℕ → Bool
is_leap y = (y % 4 == 0) && (not (y % 100 == 0) || (y % 400 == 0))

unfoldable pub days_in : ℕ → ℕ → ℕ
unfolding is_leap
days_in y m =
    if m == 2
    then (if is_leap y then 29 else 28)
    else if (m == 4) || (m == 6) || (m == 9) || (m == 11)
    then 30
    else 31

unfoldable pub checked_date : ℕ → ℕ → ℕ → Option ℕ
unfolding days_in
checked_date y m d =
    if leb 1 m && leb m 12 && leb 1 d && leb d (days_in y m)
    then some (y * 10000 + m * 100 + d)
    else none

abbrev two : ℕ → ℕ → ℕ
two a b = (a - b'0') * 10 + (b - b'0')

-- `time.Parse("2006-01-02", s)`: four digits, two digits and two digits, and a day that exists.
unfoldable pub parse_date : Text → Option ℕ
unfolding checked_date
parse_date (y1 ∷ y2 ∷ y3 ∷ y4 ∷ s1 ∷ m1 ∷ m2 ∷ s2 ∷ d1 ∷ d2 ∷ []) =
    if is_digit y1
      && is_digit y2
      && is_digit y3
      && is_digit y4
      && is_digit m1
      && is_digit m2
      && is_digit d1
      && is_digit d2
      && (s1 == b'-')
      && (s2 == b'-')
    then checked_date (two y1 y2 * 100 + two y3 y4) (two m1 m2) (two d1 d2)
    else none
parse_date _ = none
