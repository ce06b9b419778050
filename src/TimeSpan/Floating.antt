-- ===== src/TimeSpan/Floating.antt =====
-- System/TimeSpan.cpp: the operations that go through `double`, over a floating point type.
pub mod Laws
use nuke.Base.{ℕ, ◌||◌, Bool, true, false, if◌then◌else◌}
use nuke.Base.Int.{ℤ, pos, negsuc, ◌-ℤ◌, scale_ℤ, quot_ℤ}
use nuke.Base.Word.{i32, i64}
use nuke.Base.Result.{Result, ok, invalid_argument, out_of_range, ◌>>=◌, ◌>>◌, throw_if}
use nuke.Base.Floating.{Floating}
use nuke.TimeSpan.{
  TimeSpan, from_ticks, max_value, int64_max, int64_min, ticks_per_millisecond, ticks_per_second,
  ticks_per_minute, ticks_per_hour, ticks_per_day, max_milliseconds, min_milliseconds,
}

module _ (F : Floating) where
  open F use {Double, of_int, is_nan, less as lt, equal, mul, div, round, truncate}

  unfoldable pub interval_from_double_ticks : Double → Result TimeSpan
  interval_from_double_ticks ticks = do
    throw_if (lt (of_int int64_max) ticks || lt ticks (of_int int64_min) || is_nan ticks)
        out_of_range
    if equal ticks (of_int int64_max) then ok max_value else ok (from_ticks (truncate ticks))

  unfoldable pub interval : Double → Double → Result TimeSpan
  interval value scale = do
    throw_if (is_nan value) invalid_argument
    interval_from_double_ticks (mul value scale)

  unfoldable pub from_days : Double → Result TimeSpan
  from_days value = interval value (of_int (pos ticks_per_day))

  unfoldable pub from_hours : Double → Result TimeSpan
  from_hours value = interval value (of_int (pos ticks_per_hour))

  unfoldable pub from_minutes : Double → Result TimeSpan
  from_minutes value = interval value (of_int (pos ticks_per_minute))

  unfoldable pub from_seconds : Double → Result TimeSpan
  from_seconds value = interval value (of_int (pos ticks_per_second))

  unfoldable pub from_milliseconds : Double → Result TimeSpan
  from_milliseconds value = interval value (of_int (pos ticks_per_millisecond))

  -- operator * and Multiply
  unfoldable pub multiply : TimeSpan → Double → Result TimeSpan
  multiply t factor = do
    throw_if (is_nan factor) invalid_argument
    interval_from_double_ticks (round (mul (of_int t.ticks) factor))

  -- operator / and Divide, by a number
  unfoldable pub divide : TimeSpan → Double → Result TimeSpan
  divide t divisor = do
    throw_if (is_nan divisor) invalid_argument
    interval_from_double_ticks (round (div (of_int t.ticks) divisor))

  -- operator / and Divide, by a time span
  unfoldable pub divide_span : TimeSpan → TimeSpan → Double
  divide_span t t2 = div (of_int t.ticks) (of_int t2.ticks)

  unfoldable pub total_days : TimeSpan → Double
  total_days t = div (of_int t.ticks) (of_int (pos ticks_per_day))

  unfoldable pub total_hours : TimeSpan → Double
  total_hours t = div (of_int t.ticks) (of_int (pos ticks_per_hour))

  unfoldable pub total_minutes : TimeSpan → Double
  total_minutes t = div (of_int t.ticks) (of_int (pos ticks_per_minute))

  unfoldable pub total_seconds : TimeSpan → Double
  total_seconds t = div (of_int t.ticks) (of_int (pos ticks_per_second))

  unfoldable pub total_milliseconds : TimeSpan → Double
  total_milliseconds t =
      let temp = div (of_int t.ticks) (of_int (pos ticks_per_millisecond)) in
      if lt (of_int max_milliseconds) temp
      then of_int max_milliseconds
      else if lt temp (of_int min_milliseconds)
      then of_int min_milliseconds
      else temp

-- The four numbers that `ToString` prints, from the whole milliseconds. `hour * msPerHour` and its
-- like are 32-bit products.
unfoldable pub to_string_parts : ℤ → record { hour : ℤ; minute : ℤ; second : ℤ; ms : ℤ }
to_string_parts total_ms =
    let hour = i32 (quot_ℤ total_ms 3600000) in
    let after_hours = i64 (total_ms -ℤ i32 (scale_ℤ hour 3600000)) in
    let minute = i32 (quot_ℤ after_hours 60000) in
    let after_minutes = i64 (after_hours -ℤ i32 (scale_ℤ minute 60000)) in
    let second = i32 (quot_ℤ after_minutes 1000) in
    record {
      hour = hour;
      minute = minute;
      second = second;
      ms = i32 (after_minutes -ℤ i32 (scale_ℤ second 1000));
    }
