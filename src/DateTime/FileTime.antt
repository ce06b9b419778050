-- ===== src/DateTime/FileTime.antt =====
-- System/DateTime.cpp: file times on the three systems, and the operations that are not finished.
use nuke.Base.{
  ℕ, ◌+◌, ◌-◌, ◌*◌, ◌%◌, ◌^◌, Bool, ltb, leb, if◌then◌else◌, bit_or, Option, none, some,
}
use nuke.Base.Int.{ℤ, pos}
use nuke.Base.Word.{u32, u64, to_u64}
use nuke.Base.Memory.{index}
use nuke.Base.Floating.{Floating}
use nuke.Base.Result.{
  Result, ok, throws, invalid_argument, out_of_range, runtime_error, undefined, ◌>>=◌, ◌>>◌,
  throw_if,
}
use nuke.DateTime.Calendar.{
  max_ticks, ticks_per_millisecond, ticks_per_second, ticks_per_minute, ticks_per_hour,
  ticks_per_day, kind_utc, is_leap_year, days_to_month365, days_to_month366, days_to_year,
}
use nuke.DateTime.Value.{DateTime, internal_kind, ticks}
use nuke.DateTime.Shift.{from_u64, from_file_time_utc}

-- ToLocalTime
unfoldable pub to_local_time : DateTime → Result DateTime
to_local_time t = throws runtime_error

-- FromFileTime
unfoldable pub from_file_time : (unset : DateTime) (file_time : ℤ) → Result DateTime
from_file_time unset file_time = from_file_time_utc unset file_time

-- SYSTEMTIME, whose members have 16 bits.
pub record SystemTime : Type 0 where
  pub year : ℕ
  pub month : ℕ
  pub day : ℕ
  pub hour : ℕ
  pub minute : ℕ
  pub second : ℕ
  pub milliseconds : ℕ

-- `days[time.wMonth - 1]`
abbrev days_before : Bool → (month : ℕ) → Result ℕ
days_before leap month =
    if leb 1 month
    then index (if leap then days_to_month366 else days_to_month365) (month - 1)
    else throws undefined

unfoldable pub create_date_time_from_system_time :
    SystemTime → (hundred_nano_second : ℕ) → Result DateTime
create_date_time_from_system_time time hundred_nano_second = do
  leap ← is_leap_year (pos time.year)
  before ← days_before leap time.month
  let n = u32 (u32 (days_to_year time.year + before + time.day) + 2 ^ 32 - 1)
  let date = u64 (n * ticks_per_day)
  let hours = u64 (date + time.hour * ticks_per_hour)
  let minutes = u64 (hours + time.minute * ticks_per_minute)
  let tmp = u64 (
      u32 (time.second * ticks_per_second + time.milliseconds * ticks_per_millisecond)
      + hundred_nano_second)
  if leb time.second 59
      then from_u64 (bit_or (u64 (minutes + tmp)) kind_utc)
      else from_u64 (u64 (minutes + bit_or (ticks_per_minute - 1) kind_utc))

-- FromFileTimeLeapSecondsAware of each system. `converted` is what FileTimeToSystemTime stores.
unfoldable pub leap_seconds_aware_linux : (unset : DateTime) (file_time : ℕ) → Result DateTime
leap_seconds_aware_linux unset file_time = ok unset

unfoldable pub leap_seconds_aware_apple : (file_time : ℕ) → Result DateTime
leap_seconds_aware_apple file_time = throws invalid_argument

abbrev created : Option SystemTime → (file_time : ℕ) → Result DateTime
created none file_time = throws invalid_argument
created (some time) file_time =
    create_date_time_from_system_time time (file_time % ticks_per_millisecond)

unfoldable pub leap_seconds_aware_windows :
    (converted : ℕ → Option SystemTime) (file_time : ℕ) → Result DateTime
leap_seconds_aware_windows converted file_time = created (converted file_time) file_time

pub data System : Type 0 where
  linux windows apple : System

-- FromFileTimeLeapSecondsAware. Windows takes the function for Linux.
unfoldable pub leap_seconds_aware : System → (unset : DateTime) (file_time : ℕ) → Result DateTime
leap_seconds_aware linux unset file_time = leap_seconds_aware_linux unset file_time
leap_seconds_aware windows unset file_time = leap_seconds_aware_linux unset file_time
leap_seconds_aware apple unset file_time = leap_seconds_aware_apple file_time

-- AddTicks(double). The cast of a negative number, which C++ leaves undefined, wraps around.
unfoldable pub add_double_ticks : (F : Floating) → DateTime → F.Double → Result DateTime
add_double_ticks F t value = do
  let moved = to_u64 (F.truncate (F.add (F.of_int (ticks t)) value))
  throw_if (ltb max_ticks moved) out_of_range
  from_u64 (bit_or moved (internal_kind t.date_data))
