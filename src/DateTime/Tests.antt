-- ===== src/DateTime/Tests.antt =====
-- Runs of the functions of `DateTime`, and its theorems at concrete values.
use nuke.DateTime.Text.{to_string}
use nuke.DateTime.Printing.{IsRead, to_string-IsRead}
use nuke.Base.{◌+◌, ◌*◌, ◌^◌, ◌≡◌, refl, arith, inl, min}
use nuke.Base.Int.{pos, negsuc, ◌+ℤ◌, ◌-ℤ◌, ◌*ℤ◌, scale_ℤ}
use nuke.Base.Result.{ok, throws, out_of_range, invalid_argument}
use nuke.Base.Floating.{exact, exact-IsExact}
use nuke.Numeric.{div_rem, big_mul}
use nuke.TimeSpan
use nuke.DateTime.Gregorian.{is_leap, years_length, day_number, month_length, IsDate}
use nuke.DateTime.Calendar.{
  leap_rule, is_leap_year, days_to_month, days_in_month, days_to_year, date_to_ticks_in,
  date_to_ticks, time_to_ticks, init, ticks_per_day,
}
use nuke.DateTime.Leap.{is_leap_year_throws}
use nuke.DateTime.Ordinal.{Answer, date_to_ticks-Answer}
use nuke.DateTime.Value.{
  DateTime, from_data, from_ticks, from_ticks_kind, from_date, from_date_time_millisecond, ticks,
  u_ticks, internal_kind, kind,
}
use nuke.DateTime.Fields.{
  quarter_days, century_product, day_since_march1, month_and_day, get_date, year, month, day, hour,
  minute, second, millisecond, day_of_week, day_of_year, time_of_day,
}
use nuke.DateTime.Parts.{OnDate, fields-OnDate}
use nuke.DateTime.RoundTrip.{IsTime, from_date_time_millisecond-parts}
use nuke.DateTime.Shift.{add_ticks, add, subtract_span, date, add_months}
use nuke.DateTime.KindLoss.{AtTicks, add_ticks-AtTicks, HasKind-throws}
use nuke.DateTime.Moves.{at_time_of, add_months-lands}

-- All that a run calls.
running : Unit {0}
unfolding is_leap years_length day_number leap_rule is_leap_year days_to_month days_in_month
    days_to_year date_to_ticks_in date_to_ticks time_to_ticks init from_ticks from_ticks_kind
    from_date from_date_time_millisecond ticks u_ticks internal_kind kind quarter_days
    century_product day_since_march1 month_and_day get_date year month day hour minute second
    millisecond day_of_week day_of_year time_of_day div_rem big_mul ◌+ℤ◌ ◌-ℤ◌ ◌*ℤ◌ scale_ℤ
running = tt

-- 2024-02-29 12:34:56.789
abbrev leap_day : DateTime
leap_day = from_data (738944 * ticks_per_day + 452967890000)

leap_day-IsDate : IsDate 2024 2 29
unfolding is_leap
leap_day-IsDate = omega arith

noon-IsTime : IsTime 12 34 56 789
noon-IsTime = omega arith

leap_day-OnDate : OnDate 2024 2 29 leap_day
unfolding running
leap_day-OnDate = refl

runs :
    (date_to_ticks (pos 1900) (pos 2) (pos 29) ≡ throws invalid_argument)
    × (days_in_month (pos 2000) (pos 2) ≡ ok 29)
    × (get_date leap_day ≡ record { year = pos 2024; month = pos 2; day = pos 29 })
    × (day_of_week leap_day ≡ 4)
    × (from_date_time_millisecond
          (pos 2024)
          (pos 2)
          (pos 29)
          (pos 12)
          (pos 34)
          (pos 56)
          (pos 789)
          (pos 0)
        ≡ ok leap_day)
unfolding running
runs = (refl, refl, refl, refl, refl)

is_leap_year_throws_example : is_leap_year (negsuc 3) ≡ throws out_of_range
is_leap_year_throws_example = is_leap_year_throws (negsuc 3) (inl (omega arith))

date_to_ticks-Answer_example :
    Answer (pos 2024) (pos 2) (pos 29) (date_to_ticks (pos 2024) (pos 2) (pos 29))
date_to_ticks-Answer_example =
    date_to_ticks-Answer (pos 2024) (pos 2) (pos 29) (omega arith) (omega arith) (omega arith)

fields-OnDate_example :
    (year leap_day ≡ pos 2024)
    × (month leap_day ≡ pos 2)
    × (day leap_day ≡ pos 29)
    × (day_of_year leap_day ≡ 60)
    × (day_of_week leap_day ≡ 4)
unfolding running
fields-OnDate_example = fields-OnDate 2024 2 29 leap_day-IsDate leap_day leap_day-OnDate

from_date_time_millisecond-parts_example :
    (t : DateTime) × (from_date_time_millisecond
        (pos 2024)
        (pos 2)
        (pos 29)
        (pos 12)
        (pos 34)
        (pos 56)
        (pos 789)
        (pos 1)
      ≡ ok t)
    × (get_date t ≡ record { year = pos 2024; month = pos 2; day = pos 29 })
    × (hour t ≡ 12)
    × (minute t ≡ 34)
    × (second t ≡ 56)
    × (millisecond t ≡ 789)
    × (kind t ≡ pos 1)
from_date_time_millisecond-parts_example =
    from_date_time_millisecond-parts 2024 2 29 12 34 56 789 1 leap_day-IsDate noon-IsTime
      (omega arith)

add_ticks-AtTicks_example :
    AtTicks (pos leap_day.date_data +ℤ negsuc 9) (add_ticks leap_day (negsuc 9))
add_ticks-AtTicks_example = add_ticks-AtTicks leap_day (negsuc 9) (omega arith) (omega arith)

-- The same with the kind `Utc`.
abbrev leap_day_utc : DateTime
leap_day_utc = from_data (2 ^ 62 + leap_day.date_data)

HasKind-throws_example :
    (add_ticks leap_day_utc (pos 0) ≡ throws out_of_range)
    × (add leap_day_utc (TimeSpan.from_ticks (pos 0)) ≡ throws out_of_range)
    × (subtract_span leap_day_utc (TimeSpan.from_ticks (pos 0)) ≡ throws out_of_range)
    × (date leap_day_utc ≡ throws out_of_range)
HasKind-throws_example = HasKind-throws leap_day_utc (pos 0) (omega arith)

add_months-lands_example :
    add_months exact leap_day (exact.of_int (pos 12))
    ≡ ok (at_time_of leap_day (day_number 2025 2 (min 29 (month_length (is_leap 2025) 2))))
unfolding ◌+ℤ◌
add_months-lands_example =
    add_months-lands exact exact-IsExact leap_day (omega arith) 2024 2 29 leap_day-IsDate
      leap_day-OnDate (pos 12) 2025 2 (omega arith) (omega arith) (omega arith) (omega arith)
      (omega arith) refl

to_string-IsRead_example :
    IsRead
      (to_string leap_day)
      2024
      2
      29
      (hour leap_day)
      (minute leap_day)
      (second leap_day)
      (millisecond leap_day)
to_string-IsRead_example = to_string-IsRead 2024 2 29 leap_day-IsDate leap_day leap_day-OnDate
