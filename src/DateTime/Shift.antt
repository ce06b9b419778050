-- ===== src/DateTime/Shift.antt =====
-- System/DateTime.cpp: the operations that return another date and time. They end in the one-argument
-- constructor, which takes ticks, and hand it the kind's bits as well.
use nuke.Base.{
  ℕ, ◌+◌, ◌-◌, ◌*◌, ◌/◌, ◌%◌, ◌^◌, Bool, not, ◌&&◌, ◌||◌, ltb, leb, if◌then◌else◌, bit_or,
}
use nuke.Base.Int.{ℤ, pos, negsuc, pos_part, ◌+ℤ◌, ◌-ℤ◌, neg_ℤ, scale_ℤ, ltb_ℤ, eqb_ℤ, quot_ℤ}
use nuke.Base.Word.{u32, u64, to_u32, to_u64, of_u64, of_u32, i32, i64}
use nuke.Base.Result.{Result, ok, invalid_argument, out_of_range, ◌>>=◌, ◌>>◌, throw_if}
use nuke.Base.Floating.{Floating}
use nuke.TimeSpan
use nuke.TimeSpan.{TimeSpan}
use nuke.DateTime.Calendar.{
  max_ticks, ticks_per_millisecond, ticks_per_second, ticks_per_day, unix_epoch_ticks,
  file_time_offset, kind_utc, kind_local, kind_local_ambiguous_dst, kind_shift, is_leap_year,
  days_to_month, days_to_year,
}
use nuke.DateTime.Value.{DateTime, from_ticks, internal_kind, ticks, u_ticks}
use nuke.DateTime.Fields.{Date, get_date}

-- `DateTime(data)` at a uint64_t: the constructor's parameter is an int64_t.
unfoldable pub from_u64 : ℕ → Result DateTime
from_u64 bits = from_ticks (of_u64 bits)

-- AddTicks(int64_t)
unfoldable pub add_ticks : DateTime → ℤ → Result DateTime
add_ticks t value = do
  let moved = to_u64 (i64 (ticks t +ℤ value))
  throw_if (ltb max_ticks moved) out_of_range
  from_u64 (bit_or moved (internal_kind t.date_data))

-- Add
unfoldable pub add : DateTime → TimeSpan → Result DateTime
add t value = add_ticks t value.ticks

-- Subtract(DateTime)
unfoldable pub subtract : DateTime → DateTime → TimeSpan
subtract t value = TimeSpan.from_ticks (i64 (ticks t -ℤ ticks value))

-- Subtract(TimeSpan)
unfoldable pub subtract_span : DateTime → TimeSpan → Result DateTime
subtract_span t value = do
  let moved = to_u64 (i64 (ticks t -ℤ value.ticks))
  throw_if (ltb max_ticks moved) out_of_range
  from_u64 (bit_or moved (internal_kind t.date_data))

-- Date: midnight of the same day.
unfoldable pub date : DateTime → Result DateTime
date t =
    let uticks = u_ticks t in
    from_u64 (bit_or (uticks - uticks % ticks_per_day) (internal_kind t.date_data))

unfoldable pub specify_kind : DateTime → ℤ → Result DateTime
specify_kind value kind = do
  throw_if (ltb 2 (to_u32 kind)) invalid_argument
  from_u64 (bit_or (u_ticks value) (u64 (to_u64 kind * 2 ^ kind_shift)))

-- The end of `AddYears` and `AddMonths`: day `n`, at the time of day of `t`.
unfoldable pub on_day : DateTime → ℕ → Result DateTime
on_day t n =
    from_u64 (
      bit_or (u64 (u64 (n * ticks_per_day) + u_ticks t % ticks_per_day))
        (internal_kind t.date_data))

-- UtcNow, at the seconds since 1970 that the system clock gives.
unfoldable pub utc_now : ℤ → Result DateTime
utc_now seconds =
    let now = i64 (scale_ℤ seconds ticks_per_second) in
    from_u64 (bit_or (to_u64 (i64 (now +ℤ pos unix_epoch_ticks))) kind_utc)

-- Now, with the offset of the local time zone in seconds. `isAmbiguousLocalDst` is always true.
unfoldable pub now : ℤ → ℤ → Result DateTime
now seconds second_offset = do
  let tick_offset = i64 (scale_ℤ second_offset ticks_per_second)
  utc ← utc_now seconds
  let tick = i64 (ticks utc +ℤ tick_offset)
  from_u64 (
      if leb (to_u64 tick) max_ticks
      then bit_or (to_u64 tick) kind_local_ambiguous_dst
      else if ltb_ℤ tick (pos 0)
      then kind_local
      else bit_or max_ticks kind_local)

-- Today
unfoldable pub today : ℤ → ℤ → Result DateTime
today seconds second_offset = do t ← now seconds second_offset; date t

-- FromFileTimeUtc and FromFileTime on Linux, where `FromFileTimeLeapSecondsAware` returns a value
-- that was never set: `unset` is whatever it holds. The static flag is true and no code clears it.
unfoldable pub from_file_time_utc : DateTime → ℤ → Result DateTime
from_file_time_utc unset file_time = do
  throw_if (ltb (max_ticks - file_time_offset) (to_u64 file_time)) out_of_range
  ok unset

-- The years that `m` months from the first of January, counted from 1, are ahead or back.
unfoldable pub month_quotient : ℤ → ℤ
month_quotient m =
    if ltb_ℤ (pos 0) m then of_u32 (to_u32 (m -ℤ pos 1) / 12) else quot_ℤ m 12 -ℤ pos 1

-- The days before day `d` of a month, which is cut to the last day of the month.
unfoldable pub cut_day_number : Bool → ℤ → ℤ → ℤ → ℕ
cut_day_number leap y m d =
    let before = days_to_month leap (pos_part m - 1) in
    let days = of_u32 (u32 (days_to_month leap (pos_part m) + 2 ^ 32 - before)) in
    let day = if ltb_ℤ days d then days else d in
    u32 (u32 (days_to_year (to_u32 y) + before + to_u32 day) + 2 ^ 32 - 1)

-- AddMonths behind its first guard, with the month's number that the cast of `month + months` gives.
unfoldable pub shift_months : DateTime → Date → ℤ → Result DateTime
shift_months t d m = do
  let q = month_quotient m
  let y = i32 (d.year +ℤ q)
  let month = i32 (m -ℤ i32 (scale_ℤ q 12))
  throw_if (ltb_ℤ y (pos 1) || ltb_ℤ (pos 9999) y) invalid_argument
  leap ← is_leap_year y
  on_day t (cut_day_number leap y month d.day)

-- The days before a day of year `y`, with month and day counted from 0. February 29th becomes the
-- 28th in a common year.
unfoldable pub kept_day_number : Bool → ℤ → ℤ → ℤ → ℕ
kept_day_number leap y m d =
    let d' = if not leap && eqb_ℤ d (pos 28) && eqb_ℤ m (pos 1) then d -ℤ pos 1 else d in
    u32 (u32 (days_to_year (to_u32 y) + days_to_month leap (pos_part m)) + to_u32 d')

-- AddYears behind its first guard, with the year that the conversion of `year + value` gives.
unfoldable pub shift_years : DateTime → Date → ℤ → Result DateTime
shift_years t date y = do
  throw_if (ltb_ℤ y (pos 1) || ltb_ℤ (pos 9999) y) out_of_range
  leap ← is_leap_year y
  on_day t (kept_day_number leap y (date.month -ℤ pos 1) (date.day -ℤ pos 1))

module _ (F : Floating) where
  open F use {Double, of_int, half, minus_half, less as lt, less_equal, add as plus, mul, truncate}

  unfoldable pub add_years : DateTime → Double → Result DateTime
  add_years t value = do
    throw_if (lt value (of_int (negsuc 9999)) || lt (of_int (pos 10000)) value) out_of_range
    let d = get_date t
    shift_years t d (truncate (plus (of_int d.year) value))

  unfoldable pub add_months : DateTime → Double → Result DateTime
  add_months t months = do
    throw_if (lt months (of_int (negsuc 119999)) || lt (of_int (pos 120000)) months)
        invalid_argument
    let d = get_date t
    shift_months t d (truncate (plus (of_int d.month) months))

  abbrev max_millis : ℕ
  max_millis = max_ticks / ticks_per_millisecond

  -- _Add
  unfoldable pub add_scaled : DateTime → Double → ℕ → Result DateTime
  add_scaled t value scale = do
    let rounding = if less_equal (of_int (pos 0)) value then half else minus_half
    let millis = plus (mul value (of_int (pos scale))) rounding
    throw_if
        (less_equal millis (of_int (neg_ℤ (pos max_millis)))
          || less_equal (of_int (pos max_millis)) millis)
        out_of_range
    add_ticks t (i64 (scale_ℤ (truncate millis) ticks_per_millisecond))

  unfoldable pub add_days : DateTime → Double → Result DateTime
  add_days t value = add_scaled t value 86400000

  unfoldable pub add_hours : DateTime → Double → Result DateTime
  add_hours t value = add_scaled t value 3600000

  unfoldable pub add_minutes : DateTime → Double → Result DateTime
  add_minutes t value = add_scaled t value 60000

  unfoldable pub add_seconds : DateTime → Double → Result DateTime
  add_seconds t value = add_scaled t value 1000

  unfoldable pub add_milliseconds : DateTime → Double → Result DateTime
  add_milliseconds t value = add_scaled t value 1
