-- ===== src/DateTime/Leap.antt =====
-- `IsLeapYear` against the Gregorian rule, and `DaysToYear` against the sum of the years' lengths.
use nuke.Base.{ℕ, zero, suc, ◌+◌, ◌-◌, ◌*◌, ◌/◌, ◌≤◌, ◌≡◌, arith, ◌⊎◌}
use nuke.Base.Int.{ℤ, pos, ◌≤ℤ◌}
use nuke.Base.Result.{ok, throws, out_of_range}
use nuke.Base.Bits.{bit_and_mask}
use nuke.DateTime.Gregorian.{is_leap, years_length}
use nuke.DateTime.Calendar.{leap_rule, is_leap_year, days_to_year}

-- Testing multiples of 16 and 25 decides the multiples of 100 and 400.
pub leap_rule-is_leap : (y : ℕ) → leap_rule y ≡ is_leap y
unfolding leap_rule is_leap
leap_rule-is_leap y = ground (arith, bit_and_mask 2 y, bit_and_mask 4 y)

abbrev pub IsYear : ℕ → Type 0
IsYear y = (1 ≤ y) × (y ≤ 9999)

-- For a year from 1 to 9999 `IsLeapYear` answers by the Gregorian rule.
pub is_leap_year-is_leap : (y : ℕ) → IsYear y → is_leap_year (pos y) ≡ ok (is_leap y)
unfolding is_leap_year
is_leap_year-is_leap y h = ground (arith, leap_rule-is_leap y)

-- For any other year it throws.
pub is_leap_year_throws :
    (y : ℤ) → (y ≤ℤ pos 0) ⊎ (pos 10000 ≤ℤ y) → is_leap_year y ≡ throws out_of_range
unfolding is_leap_year
is_leap_year_throws y h = ground arith

-- The sum of the lengths of the first `y` years in closed form.
pub years_length_closed : (y : ℕ) → years_length y + y / 100 ≡ 365 * y + y / 4 + y / 400
unfolding years_length is_leap
years_length_closed zero = omega arith
years_length_closed (suc y) = ground (arith, years_length_closed y)

-- The 32-bit computation of `DaysToYear` does not overflow for a year up to 9999.
pub days_to_year_closed :
    (y : ℕ)
    → 1 ≤ y
    → y ≤ 9999
    → days_to_year y + (y - 1) / 100 ≡ 365 * (y - 1) + (y - 1) / 4 + (y - 1) / 400
unfolding days_to_year
days_to_year_closed y h k = omega arith

pub days_to_year-years_length : (y : ℕ) → 1 ≤ y → y ≤ 9999 → days_to_year y ≡ years_length (y - 1)
days_to_year-years_length y h k =
    omega (arith, days_to_year_closed y h k, years_length_closed (y - 1))
