-- ===== src/DateTime/Parts.antt =====
-- The parts that the code reads out of ticks are those of the Gregorian date.
use nuke.Base.{ℕ, suc, ◌+◌, ◌-◌, ◌*◌, ◌/◌, ◌%◌, ◌^◌, ◌≡◌, arith}
use nuke.Base.Int.{pos, ◌+ℤ◌, ◌-ℤ◌}
use nuke.Base.Bits.{bit_and_mask, bit_or_three}
use nuke.Numeric.{div_rem}
use nuke.Numeric.Product.{div_rem_lem}
use nuke.DateTime.Gregorian.{is_leap, months_length, day_number, IsDate}
use nuke.DateTime.Calendar.{ticks_per_day}
use nuke.DateTime.Leap.{years_length_closed}
use nuke.DateTime.Ordinal.{day_number-lt}
use nuke.DateTime.Tables.{months_length_within}
use nuke.DateTime.Affine.{IsSplit, IsSplit-day, century_product_split}
use nuke.DateTime.March.{march_day, march_year, IsMarch, march_day-IsMarch, march-IsSplit}
use nuke.DateTime.Value.{DateTime, ticks, u_ticks}
use nuke.DateTime.Fields.{
  quarter_days, century_product, day_since_march1, get_date, year, month, day, day_of_year,
  day_of_week,
}

-- The ticks are the low 62 bits.
pub u_ticks-mod : (t : DateTime) → u_ticks t ≡ t.date_data % 2 ^ 62
unfolding u_ticks ticks
u_ticks-mod t = ground (arith, bit_and_mask 62 t.date_data)

pub ticks-u_ticks : (t : DateTime) → ticks t ≡ pos (u_ticks t)
unfolding u_ticks ticks
ticks-u_ticks t = ground (arith, bit_and_mask 62 t.date_data)

abbrev pub OnDate : ℕ → ℕ → ℕ → DateTime → Type 0
OnDate y m d t = u_ticks t / ticks_per_day ≡ day_number y m d

module _ (y m d : ℕ) (v : IsDate y m d) (t : DateTime) (on : OnDate y m d t) where
  quarter_days_lem : quarter_days t ≡ 4 * day_number y m d + 3
  unfolding quarter_days
  quarter_days_lem =
      omega (arith, day_number-lt y m d v, bit_or_three ((u_ticks t / 216000000000) % 2 ^ 32))

  year-IsSplit : IsSplit (y - 1) (months_length (is_leap y) (m - 1) + (d - 1)) (day_number y m d)
  unfolding day_number
  year-IsSplit =
      let next : suc (y - 1) ≡ y = omega (arith, v.year_from) in
      let table = months_length_within (is_leap y) m v.month_from v.month_to in
      IsSplit-day (y - 1) _ (day_number y m d) (omega (arith, years_length_closed (y - 1)))
        (rw next (omega (arith, table.0, v.day_to, v.day_from)))

  IsMarch-parts : IsMarch m d (march_day (is_leap y) m d)
  IsMarch-parts = march_day-IsMarch (is_leap y) m d v.month_from v.month_to v.day_from v.day_to

  -- `Year` gives the year.
  pub year-OnDate : year t ≡ pos y
  unfolding year div_rem ◌+ℤ◌
  year-OnDate = rw quarter_days_lem (
      ground (
        arith,
        day_number-lt y m d v,
        v.year_from,
        v.year_to,
        year-IsSplit.century,
        year-IsSplit.year_in_century,
        bit_or_three ((4 * day_number y m d + 3) % 146097),
      ))

  -- `DayOfYear` counts from 1.
  pub day_of_year-OnDate : day_of_year t ≡ months_length (is_leap y) (m - 1) + d
  unfolding day_of_year
  day_of_year-OnDate = rw quarter_days_lem (
      ground (
        arith,
        v.day_from,
        year-IsSplit.day_in_year,
        bit_or_three ((4 * day_number y m d + 3) % 146097),
      ))

  from_march1 : ℕ
  from_march1 = (4 * (day_number y m d + 306) + 3) % 146097

  shifted : (4 * day_number y m d + 3 + 1224) % 2 ^ 32 ≡ 4 * (day_number y m d + 306) + 3
  shifted = omega (arith, day_number-lt y m d v)

  march_product :
      (century_product from_march1 / 2 ^ 32 ≡ march_year y m % 100)
      × (day_since_march1 (century_product from_march1) ≡ march_day (is_leap y) m d)
  unfolding from_march1
  march_product =
      let product = century_product_split from_march1 (omega arith) in
      let split = march-IsSplit y m d v in
      (omega (arith, product.0, split.year_in_century), omega (arith, product.1, split.day_in_year))

  -- `Month` gives the month, and `Day` the day.
  pub month-OnDate : month t ≡ pos m
  unfolding month ◌-ℤ◌ from_march1
  month-OnDate =
      rw (quarter_days_lem, shifted, march_product.1)
        (ground (arith, IsMarch-parts.month_is, IsMarch-parts.late))

  pub day-OnDate : day t ≡ pos d
  unfolding day from_march1
  day-OnDate = rw (quarter_days_lem, shifted, march_product.1, IsMarch-parts.day_is)

  -- For a value whose day number is that of the Gregorian date of year `y`, month `m` and day `d`,
  -- `GetDate` stores these three.
  pub get_date-OnDate : get_date t ≡ record { year = pos y; month = pos m; day = pos d }
  unfolding get_date ◌-ℤ◌ ◌+ℤ◌ march_year from_march1
  get_date-OnDate =
      rw
        (
          quarter_days_lem,
          shifted,
          div_rem_lem (4 * (day_number y m d + 306) + 3) 146097
              (omega (arith, day_number-lt y m d v)) (omega arith),
          march_product.1,
          IsMarch-parts.day_is,
          IsMarch-parts.month_is,
          IsMarch-parts.late,
        )
        (ground (
          arith,
          v.year_from,
          v.year_to,
          v.month_to,
          (march-IsSplit y m d v).century,
          march_product.0,
        ))

  -- Sunday is 0, and 0001-01-01 was a Monday.
  pub day_of_week-OnDate : day_of_week t ≡ (day_number y m d + 1) % 7
  unfolding day_of_week
  day_of_week-OnDate = omega (arith, day_number-lt y m d v)

  -- For a value whose day number is that of the Gregorian date of year `y`, month `m` and day `d`,
  -- `Year`, `Month` and `Day` are these three, `DayOfYear` is the number of the day in the year,
  -- from 1, and `DayOfWeek` is the day of the week, Sunday as 0.
  pub fields-OnDate :
      (year t ≡ pos y)
      × (month t ≡ pos m)
      × (day t ≡ pos d)
      × (day_of_year t ≡ months_length (is_leap y) (m - 1) + d)
      × (day_of_week t ≡ (day_number y m d + 1) % 7)
  fields-OnDate = (year-OnDate, month-OnDate, day-OnDate, day_of_year-OnDate, day_of_week-OnDate)
