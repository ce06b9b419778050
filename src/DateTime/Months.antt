-- ===== src/DateTime/Months.antt =====
-- `AddMonths` and `AddYears` on a value with no kind, at a whole number of months or years.
use nuke.Base.{ap, ℕ, zero, suc, ◌+◌, ◌-◌, ◌*◌, ◌%◌, ◌^◌, ◌≤◌, ◌<◌, ◌≡◌, ◌⊎◌, arith, min}
use nuke.Base.Int.{
  ℤ, pos, negsuc, pos_part, neg_part, ◌+ℤ◌, ◌-ℤ◌, ◌≤ℤ◌, scale_ℤ, int_laws, int_bounds,
}
use nuke.Base.Word.{i32}
use nuke.Base.Result.{ok, throws, invalid_argument}
use nuke.Base.Floating.{IsSmall}
use nuke.DateTime.Gregorian.{is_leap, month_length, day_number, IsDate}
use nuke.DateTime.Leap.{is_leap_year-is_leap}
use nuke.DateTime.Ordinal.{day_number-lt}
use nuke.DateTime.Calendar.{ticks_per_day}
use nuke.DateTime.Value.{DateTime, from_data}
use nuke.DateTime.Fields.{Date}
use nuke.DateTime.KindLoss.{Unspecified}
use nuke.DateTime.Landing.{
  on_day_lem, IsCut-of, month_length_pos, cut_day_number_lem, kept_day_number_lem,
}
use nuke.DateTime.Shift.{month_quotient, shift_months, shift_years}

-- The year is moved by the quotient, and a month from 1 to 12 is left.
record IsQuotient (m q : ℤ) (r : ℕ) : Type 0 where
  month_from : 1 ≤ r
  month_to : r ≤ 12
  forward : pos_part q ≤ pos_part m
  backward : neg_part q ≤ neg_part m + 1
  whole : pos_part m + 12 * neg_part q ≡ neg_part m + 12 * pos_part q + r

abbrev month_rest : ℤ → ℕ
month_rest (pos zero) = 12
month_rest (pos (suc n)) = n % 12 + 1
month_rest (negsuc n) = 12 - suc n % 12

month_quotient_lem : (m : ℤ) → IsSmall m → IsQuotient m (month_quotient m) (month_rest m)
unfolding month_quotient ◌-ℤ◌
month_quotient_lem (pos zero) h = ground arith
month_quotient_lem (pos (suc n)) h = ground arith
month_quotient_lem (negsuc n) h = ground arith

i32_of : (z : ℤ) → (pos_part z < 2 ^ 31) × (neg_part z < 2 ^ 31) → i32 z ≡ z
i32_of z h = ground arith

month_left :
    (m : ℤ) → IsSmall m → i32 (m -ℤ i32 (scale_ℤ (month_quotient m) 12)) ≡ pos (month_rest m)
month_left m h =
    let q = month_quotient_lem m h in
    let fits : i32 (scale_ℤ (month_quotient m) 12) ≡ scale_ℤ (month_quotient m) 12 =
      i32_of _ (omega (int_bounds, q.forward, q.backward)) in
    let is : m -ℤ scale_ℤ (month_quotient m) 12 ≡ pos (month_rest m) = omega (int_laws, q.whole) in
    rw (fits, is) (i32_of (pos (month_rest m)) (omega (arith, q.month_to)))

sub_one : (n : ℕ) → 1 ≤ n → pos n -ℤ pos 1 ≡ pos (n - 1)
unfolding ◌-ℤ◌
sub_one n h = ground arith

-- Months counted from the year 0.
abbrev pub month_index : ℕ → ℕ → ℕ
month_index y m = y * 12 + (m - 1)

module _ (t : DateTime) (h : Unspecified t) (y m d : ℕ) (v : IsDate y m d) (k : ℤ)
    (small : IsSmall (pos m +ℤ k)) where
  abbrev z : ℤ
  z = pos m +ℤ k

  abbrev from : Date
  from = record { year = pos y; month = pos m; day = pos d }

  year_small : i32 (pos y +ℤ month_quotient z) ≡ pos y +ℤ month_quotient z
  year_small =
      let q = month_quotient_lem z small in
      i32_of _ (omega (int_bounds, q.forward, q.backward, v.year_to))

  rest_is :
      (y' m' : ℕ)
      → 1 ≤ m'
      → m' ≤ 12
      → pos (month_index y' m') ≡ pos (month_index y m) +ℤ k
      → (month_rest z ≡ m') × (pos y +ℤ month_quotient z ≡ pos y')
  rest_is y' m' hm km e =
      let q = month_quotient_lem z small in
      let up = ap pos_part e in
      let down = ap neg_part e in
      (
        omega (int_laws, q.whole, q.month_from, q.month_to, up, down, v.month_from),
        omega (int_laws, q.whole, q.month_from, q.month_to, up, down, v.month_from),
      )

  -- The month `k` months away, with the day cut to its length, at the same time of day.
  pub shift_months_lem :
      (y' m' : ℕ)
      → 1 ≤ y'
      → y' ≤ 9999
      → 1 ≤ m'
      → m' ≤ 12
      → pos (month_index y' m') ≡ pos (month_index y m) +ℤ k
      → shift_months t from z
        ≡ ok (
            from_data (
              day_number y' m' (min d (month_length (is_leap y') m')) * ticks_per_day
              + t.date_data % ticks_per_day))
  unfolding shift_months
  shift_months_lem y' m' hy ky hm km e =
      let (month_is, year_is) = rest_is y' m' hm km e in
      let length_to = (month_length_pos (is_leap y) m).1 in
      let cut = IsCut-of y' m' d hy ky hm km v.day_from in
      rw (year_small, month_left z small, month_is, year_is, is_leap_year-is_leap y' (hy, ky))
        (ground (
          arith,
          cut_day_number_lem y' m' d cut.valid cut (omega (arith, v.day_to, length_to)),
          on_day_lem t (day_number y' m' (min d (month_length (is_leap y') m'))) h
              (day_number-lt _ _ _ cut.valid),
        ))

  -- Without a year from 1 to 9999 to land in, it throws.
  pub shift_months_throws :
      (pos (month_index y m) +ℤ k ≤ℤ pos 11) ⊎ (pos 120000 ≤ℤ pos (month_index y m) +ℤ k)
      → shift_months t from z ≡ throws invalid_argument
  unfolding shift_months
  shift_months_throws out =
      let q = month_quotient_lem z small in
      let year_out : (pos y +ℤ month_quotient z ≤ℤ pos 0)
          ⊎ (pos 10000 ≤ℤ pos y +ℤ month_quotient z) =
        omega (int_laws, q.whole, q.month_from, q.month_to, v.month_from, out) in
      rw year_small (ground arith)

-- The same day of another year, where February 29th of a common year is the 28th.
pub shift_years_lem :
    (t : DateTime)
    → Unspecified t
    → (y m d : ℕ) → IsDate y m d
    → (y' : ℕ) → 1 ≤ y'
    → y' ≤ 9999
    → shift_years t (record { year = pos y; month = pos m; day = pos d }) (pos y')
      ≡ ok (
          from_data (
            day_number y' m (min d (month_length (is_leap y') m)) * ticks_per_day
            + t.date_data % ticks_per_day))
unfolding shift_years
shift_years_lem t h y m d v y' hy ky =
    let cut = IsCut-of y' m d hy ky v.month_from v.month_to v.day_from in
    rw
      (
        is_leap_year-is_leap y' (hy, ky),
        sub_one m v.month_from,
        sub_one d v.day_from,
        kept_day_number_lem y y' m d v cut.valid,
        on_day_lem t (day_number y' m (min d (month_length (is_leap y') m))) h
            (day_number-lt _ _ _ cut.valid),
      )
      (ground arith)
