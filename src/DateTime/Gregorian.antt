-- ===== src/DateTime/Gregorian.antt =====
-- The proleptic Gregorian calendar by its rules, with no reference to the code.
use nuke.Base.{ℕ, zero, suc, ◌+◌, ◌-◌, ◌%◌, ◌≤◌, ◌==◌, if◌then◌else◌, Bool, not, ◌||◌, ◌&&◌}

unfoldable pub is_leap : ℕ → Bool
is_leap y = (y % 4 == 0) && (not (y % 100 == 0) || (y % 400 == 0))

abbrev pub month_length : Bool → ℕ → ℕ
month_length leap m =
    if m == 2
    then (if leap then 29 else 28)
    else if (m == 4) || (m == 6) || (m == 9) || (m == 11)
    then 30
    else 31

abbrev pub year_length : Bool → ℕ
year_length leap = if leap then 366 else 365

-- The days of the first `i` months of a year.
abbrev pub months_length : Bool → ℕ → ℕ
months_length leap zero = 0
months_length leap (suc i) = months_length leap i + month_length leap (suc i)

-- The days of the years 1 to `y`.
unfoldable pub years_length : ℕ → ℕ
years_length zero = 0
years_length (suc y) = years_length y + year_length (is_leap (suc y))

-- The days from 0001-01-01 to the first day of month `m` of year `y`.
unfoldable pub day_number : ℕ → ℕ → ℕ → ℕ
day_number y m d = years_length (y - 1) + months_length (is_leap y) (m - 1) + (d - 1)

pub record IsDate (y m d : ℕ) : Type 0 where
  pub year_from : 1 ≤ y
  pub year_to : y ≤ 9999
  pub month_from : 1 ≤ m
  pub month_to : m ≤ 12
  pub day_from : 1 ≤ d
  pub day_to : d ≤ month_length (is_leap y) m
