-- ===== src/DateTime/Fields.antt =====
-- System/DateTime.cpp: the parts of a date and time. Years, months and days come out of ticks by the
-- Euclidean affine functions of Neri and Schneider, in 32-bit arithmetic.
use nuke.Base.{ℕ, ◌+◌, ◌*◌, ◌/◌, ◌%◌, ◌^◌, leb, if◌then◌else◌, bit_or}
use nuke.Base.Int.{ℤ, pos, ◌-ℤ◌, ◌+ℤ◌}
use nuke.Base.Word.{u16, u32, to_u64, of_u32}
use nuke.Numeric.{div_rem, big_mul}
use nuke.DateTime.Calendar.{
  ticks_per_millisecond, ticks_per_second, ticks_per_minute, ticks_per_hour, ticks_per_day,
  ticks_per_6hours, days_per_4years, days_per_400years, eaf_multiplier, eaf_divider,
  march1_based_day_of_new_year,
}
use nuke.DateTime.Value.{DateTime, u_ticks}

-- The quarter days since 0001-01-01, at the end of the day: `(uint32_t)(ticks / TicksPer6Hours) | 3U`.
unfoldable pub quarter_days : DateTime → ℕ
quarter_days t = bit_or (u32 (u_ticks t / ticks_per_6hours)) 3

-- `u2` of `GetDate`, `Month` and `Day`, from the quarter day in the century.
unfoldable pub century_product : ℕ → ℕ
century_product r1 = to_u64 (big_mul (pos eaf_multiplier) (of_u32 (bit_or r1 3)))

unfoldable pub day_since_march1 : ℕ → ℕ
day_since_march1 u2 = u16 (u32 u2 / eaf_divider)

-- `n3` of the same functions.
unfoldable pub month_and_day : ℕ → ℕ
month_and_day day = 2141 * day + 197913

pub record Date : Type 0 where
  pub year : ℤ
  pub month : ℤ
  pub day : ℤ

-- GetDate(DateTime*, int32_t&, int32_t&, int32_t&), which stores into its arguments.
unfoldable pub get_date : DateTime → Date
get_date t =
    let q = div_rem (u32 (quarter_days t + 1224)) days_per_400years in
    let u2 = century_product q.remainder in
    let d = day_since_march1 u2 in
    let n3 = month_and_day d in
    let y = of_u32 (u32 (u32 (100 * q.quotient) + u32 (u2 / 2 ^ 32))) in
    let m = u16 (n3 / 2 ^ 16) in
    let day_of_month = pos (u16 n3 / 2141 + 1) in
    if leb march1_based_day_of_new_year d
    then record { year = y +ℤ pos 1; month = pos m -ℤ pos 12; day = day_of_month }
    else record { year = y; month = pos m; day = day_of_month }

unfoldable pub year : DateTime → ℤ
year t =
    let q = div_rem (quarter_days t) days_per_400years in
    pos 1 +ℤ of_u32 (u32 (u32 (100 * q.quotient) + bit_or q.remainder 3 / days_per_4years))

unfoldable pub month : DateTime → ℤ
month t =
    let r1 = u32 (quarter_days t + 1224) % days_per_400years in
    let d = day_since_march1 (century_product r1) in
    pos (u16 (month_and_day d / 2 ^ 16))
    -ℤ pos (if leb march1_based_day_of_new_year d then 12 else 0)

unfoldable pub day : DateTime → ℤ
day t =
    let r1 = u32 (quarter_days t + 1224) % days_per_400years in
    pos (u16 (month_and_day (day_since_march1 (century_product r1))) / 2141 + 1)

unfoldable pub hour : DateTime → ℕ
hour t = u32 (u_ticks t / ticks_per_hour) % 24

unfoldable pub minute : DateTime → ℕ
minute t = u_ticks t / ticks_per_minute % 60

unfoldable pub second : DateTime → ℕ
second t = u_ticks t / ticks_per_second % 60

unfoldable pub millisecond : DateTime → ℕ
millisecond t = u_ticks t / ticks_per_millisecond % 1000

-- DayOfWeek, with Sunday as 0.
unfoldable pub day_of_week : DateTime → ℕ
day_of_week t = u32 (u32 (u_ticks t / ticks_per_day) + 1) % 7

unfoldable pub day_of_year : DateTime → ℕ
day_of_year t =
    1 + u32 (bit_or (quarter_days t % days_per_400years) 3 * eaf_multiplier) / eaf_divider

-- The ticks of TimeOfDay.
unfoldable pub time_of_day : DateTime → ℕ
time_of_day t = u_ticks t % ticks_per_day
