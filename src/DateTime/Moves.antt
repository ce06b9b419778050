-- ===== src/DateTime/Moves.antt =====
-- `AddMonths` and `AddYears` as they are called, on a value with no kind and a whole number.
use nuke.Base.{ℕ, ◌+◌, ◌*◌, ◌%◌, ◌≤◌, ◌≡◌, ◌⊎◌, arith, min}
use nuke.Base.Int.{ℤ, pos, negsuc, pos_part, neg_part, ◌+ℤ◌, ◌≤ℤ◌, int_bounds}
use nuke.Base.Result.{ok, throws, invalid_argument}
use nuke.Base.Floating.{Floating, IsExact}
use nuke.DateTime.Gregorian.{is_leap, month_length, day_number, IsDate}
use nuke.DateTime.Calendar.{ticks_per_day}
use nuke.DateTime.Value.{DateTime, from_data}
use nuke.DateTime.Parts.{OnDate, get_date-OnDate}
use nuke.DateTime.KindLoss.{Unspecified}
use nuke.DateTime.Months.{month_index, shift_months_lem, shift_months_throws, shift_years_lem}
use nuke.DateTime.Shift.{add_months, add_years, shift_months}

abbrev pub Within : ℕ → ℤ → Type 0
Within n k = (pos_part k ≤ n) × (neg_part k ≤ n)

-- A date and time on a date of the calendar, at the time of day of `t`.
abbrev pub at_time_of : DateTime → ℕ → DateTime
at_time_of t n = from_data (n * ticks_per_day + t.date_data % ticks_per_day)

module _ (F : Floating) (exact : IsExact F) (t : DateTime) (h : Unspecified t) (y m d : ℕ)
    (v : IsDate y m d) (on : OnDate y m d t) where
  enters_months :
      (k : ℤ)
      → Within 120000 k
      → add_months F t (F.of_int k)
        ≡ shift_months t (record { year = pos y; month = pos m; day = pos d }) (pos m +ℤ k)
  unfolding add_months
  enters_months k small =
      rw
        (
          exact.order k (negsuc 119999) (omega arith) (omega arith),
          exact.order (pos 120000) k (omega arith) (omega arith),
          get_date-OnDate y m d v t on,
          exact.sum (pos m) k (omega (arith, v.month_to)) (omega arith),
        )
        (ground arith)

  -- For a value of no kind on the date `y`, `m`, `d`, and a `double` type that is exact on whole
  -- numbers: if the month `k` months away, `k` at most 120000 either way, lies in the years 1 to
  -- 9999, `AddMonths` of `k` is that month, with the day cut to its length and the time of day
  -- kept.
  pub add_months-lands :
      (k : ℤ) (y' m' : ℕ)
      → Within 120000 k
      → 1 ≤ y'
      → y' ≤ 9999
      → 1 ≤ m'
      → m' ≤ 12
      → pos (month_index y' m') ≡ pos (month_index y m) +ℤ k
      → add_months F t (F.of_int k)
        ≡ ok (at_time_of t (day_number y' m' (min d (month_length (is_leap y') m'))))
  add_months-lands k y' m' small hy ky hm km e =
      rw (enters_months k small)
        (shift_months_lem t h y m d v k (omega (int_bounds, v.month_to)) y' m' hy ky hm km e)

  -- Under the same conditions on the value, `AddMonths` of `k`, at most 120000 either way, throws
  -- `invalid_argument` if the month `k` months away lies before year 1 or after year 9999.
  pub add_months_throws :
      (k : ℤ)
      → Within 120000 k
      → (pos (month_index y m) +ℤ k ≤ℤ pos 11) ⊎ (pos 120000 ≤ℤ pos (month_index y m) +ℤ k)
      → add_months F t (F.of_int k) ≡ throws invalid_argument
  add_months_throws k small out =
      rw (enters_months k small)
        (shift_months_throws t h y m d v k (omega (int_bounds, v.month_to)) out)

  -- Under the same conditions on the value, if the year `k` years away, `k` at most 10000 either
  -- way, lies in 1 to 9999, `AddYears` of `k` is the same day of that year with the time of day
  -- kept, and February 29th becomes the 28th in a common year.
  pub add_years-lands :
      (k : ℤ) (y' : ℕ)
      → Within 10000 k
      → 1 ≤ y'
      → y' ≤ 9999
      → pos y' ≡ pos y +ℤ k
      → add_years F t (F.of_int k)
        ≡ ok (at_time_of t (day_number y' m (min d (month_length (is_leap y') m))))
  unfolding add_years
  add_years-lands k y' small hy ky e =
      rw
        (
          exact.order k (negsuc 9999) (omega arith) (omega arith),
          exact.order (pos 10000) k (omega arith) (omega arith),
          get_date-OnDate y m d v t on,
          exact.sum (pos y) k (omega (arith, v.year_to)) (omega arith),
          ← e,
          shift_years_lem t h y m d v y' hy ky,
        )
        (ground arith)
