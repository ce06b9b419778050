-- ===== src/DateTime/Ordinal.antt =====
-- `DateToTicks` accepts exactly the Gregorian dates of the years 1 to 9999, and returns the first
-- tick of the day.
use nuke.Base.{ℕ, ◌+◌, ◌-◌, ◌*◌, ◌^◌, ◌≤◌, ◌<◌, ◌≡◌, arith, if◌then◌else◌, ◌⊎◌, inl, inr}
use nuke.Base.Int.{ℤ, pos, negsuc, pos_part}
use nuke.Base.Word.{IsInt32}
use nuke.Base.Result.{Result, ok, throws, invalid_argument}
use nuke.DateTime.Gregorian.{is_leap, month_length, months_length, day_number, IsDate}
use nuke.DateTime.Calendar.{
  ticks_per_day, days_to_10000, days_to_month, date_to_ticks_in, date_to_ticks,
}
use nuke.DateTime.Leap.{is_leap_year-is_leap, years_length_closed, days_to_year-years_length}
use nuke.DateTime.Tables.{days_to_month-months_length, months_length_within}

-- A year's days, and the position of a month in them.
record Placed (y m d : ℕ) : Type 0 where
  in_year : months_length (is_leap y) (m - 1) + (d - 1) < (if is_leap y then 366 else 365)
  before : days_to_month (is_leap y) (m - 1) ≡ months_length (is_leap y) (m - 1)
  upto :
      days_to_month (is_leap y) m ≡ months_length (is_leap y) (m - 1) + month_length (is_leap y) m

IsDate-Placed : (y m d : ℕ) → IsDate y m d → Placed y m d
IsDate-Placed y m d v =
    let table = months_length_within (is_leap y) m v.month_from v.month_to in
    record {
      in_year = omega (arith, table.0);
      before = days_to_month-months_length (is_leap y) (m - 1) (omega arith);
      upto = omega (arith, table.1, days_to_month-months_length (is_leap y) m v.month_to);
    }

pub day_number-lt : (y m d : ℕ) → IsDate y m d → day_number y m d < days_to_10000
unfolding day_number is_leap
day_number-lt y m d v = ground (arith, (IsDate-Placed y m d v).in_year, years_length_closed (y - 1))

pub date_to_ticks-day_number :
    (y m d : ℕ)
    → IsDate y m d
    → date_to_ticks (pos y) (pos m) (pos d) ≡ ok (day_number y m d * ticks_per_day)
unfolding date_to_ticks date_to_ticks_in day_number
date_to_ticks-day_number y m d v = ground (
  arith,
  is_leap_year-is_leap y (v.year_from, v.year_to),
  days_to_year-years_length y v.year_from v.year_to,
  years_length_closed (y - 1),
  IsDate-Placed y m d v,
)

abbrev OutOfRange : ℤ → ℤ → ℤ → Type 0
OutOfRange y m d =
    ((pos_part y < 1) ⊎ (9999 < pos_part y))
    ⊎ (((pos_part m < 1) ⊎ (12 < pos_part m)) ⊎ (pos_part d < 1))

IsDate-or :
    (y m d : ℕ)
    → IsDate y m d
      ⊎ (OutOfRange (pos y) (pos m) (pos d)
          ⊎ ((1 ≤ y) × (y ≤ 9999) × (1 ≤ m) × (m ≤ 12) × (month_length (is_leap y) m < d)))
IsDate-or y m d = ground arith

OutOfRange-throws : (y m d : ℤ) → OutOfRange y m d → date_to_ticks y m d ≡ throws invalid_argument
unfolding date_to_ticks
OutOfRange-throws y m d h = ground arith

late_day_throws :
    (y m d : ℕ)
    → 1 ≤ y
    → y ≤ 9999
    → 1 ≤ m
    → m ≤ 12
    → month_length (is_leap y) m < d
    → d < 2 ^ 31
    → date_to_ticks (pos y) (pos m) (pos d) ≡ throws invalid_argument
unfolding date_to_ticks date_to_ticks_in
late_day_throws y m d hy ky hm km late hd = ground (
  arith,
  is_leap_year-is_leap y (hy, ky),
  months_length_within (is_leap y) m hm km,
  days_to_month-months_length (is_leap y) (m - 1),
  days_to_month-months_length (is_leap y) m,
)

-- What `DateToTicks` may return for a year, month and day.
pub data Answer (y m d : ℤ) : Result ℕ → Type 0 where
  accepted :
      IsDate (pos_part y) (pos_part m) (pos_part d)
      → Answer y m d (ok (day_number (pos_part y) (pos_part m) (pos_part d) * ticks_per_day))
  refused : ¬ IsDate (pos_part y) (pos_part m) (pos_part d) → Answer y m d (throws invalid_argument)

refuse :
    (y m d : ℤ)
    → ¬ IsDate (pos_part y) (pos_part m) (pos_part d)
    → date_to_ticks y m d ≡ throws invalid_argument
    → Answer y m d (date_to_ticks y m d)
refuse y m d bad e = rw e (refused bad)

-- A negative argument is no date; `m` and `d` are as `y`.
negative_year : (y : ℕ) (m d : ℤ) → Answer (negsuc y) m d (date_to_ticks (negsuc y) m d)
negative_year y m d =
    refuse (negsuc y) m d (λ v. absurd (omega (arith, v.year_from)))
      (OutOfRange-throws (negsuc y) m d (omega arith))

-- For every 32-bit year, month and day `DateToTicks` either returns the first tick of a Gregorian
-- date of the years 1 to 9999, or the three are no such date and it throws `invalid_argument`.
pub date_to_ticks-Answer :
    (y m d : ℤ) → IsInt32 y → IsInt32 m → IsInt32 d → Answer y m d (date_to_ticks y m d)
date_to_ticks-Answer (negsuc y) m d hy hm hd = negative_year y m d
date_to_ticks-Answer (pos y) (negsuc m) d hy hm hd =
    refuse (pos y) (negsuc m) d (λ v. absurd (omega (arith, v.month_from)))
      (OutOfRange-throws (pos y) (negsuc m) d (omega arith))
date_to_ticks-Answer (pos y) (pos m) (negsuc d) hy hm hd =
    refuse (pos y) (pos m) (negsuc d) (λ v. absurd (omega (arith, v.day_from)))
      (OutOfRange-throws (pos y) (pos m) (negsuc d) (omega arith))
date_to_ticks-Answer (pos y) (pos m) (pos d) hy hm hd = elim (IsDate-or y m d) [
  | inl v ↦ rw (date_to_ticks-day_number y m d v) (accepted v)
  | inr (inl out) ↦
      refuse (pos y) (pos m) (pos d)
        (λ v.
          absurd (omega (arith, v.year_from, v.year_to, v.month_from, v.month_to, v.day_from, out)))
        (OutOfRange-throws (pos y) (pos m) (pos d) out)
  | inr (inr late) ↦
      refuse (pos y) (pos m) (pos d) (λ v. absurd (omega (arith, v.day_to, late.4)))
        (late_day_throws y m d late.0 late.1 late.2 late.3 late.4 (omega arith))
]
