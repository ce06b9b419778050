-- ===== src/Stopwatch/Readings.antt =====
-- CrossPlatform/MiscApi.cpp on Linux, whose clock the system reads, and what a stopwatch of
-- System/Diagnostics/Stopwatch.cpp shows in other units than the clock's.
use nuke.Base.{ℕ, ◌+◌, ◌*◌, Bool}
use nuke.Base.Int.{ℤ, pos, quot_ℤ}
use nuke.Base.Word.{u64, to_u64, of_u64}
use nuke.Base.Floating.{Floating}
use nuke.TimeSpan.{TimeSpan, from_ticks, ticks_per_millisecond, ticks_per_second}
use nuke.Stopwatch.{Stopwatch, get_raw_elapsed_ticks}

-- QueryPerformanceFrequency_Linux
abbrev pub frequency : ℕ
frequency = 1000000000

-- QueryPerformanceCounter_Linux, of the two members that `clock_gettime` has filled.
unfoldable pub query_performance_counter : (tv_sec tv_nsec : ℤ) → ℤ
query_performance_counter tv_sec tv_nsec =
    of_u64 (u64 (u64 (to_u64 tv_sec * frequency) + to_u64 tv_nsec))

-- IsRunning
unfoldable pub is_running_of : Stopwatch → Bool
is_running_of s = s.is_running

module _ (F : Floating) where
  open F use {Double, of_int, mul, div, truncate}

  -- s_tickFrequency
  unfoldable pub tick_frequency : Double
  tick_frequency = div (of_int (pos ticks_per_second)) (of_int (pos frequency))

  unfoldable pub get_elapsed_date_time_ticks : Stopwatch → (timestamp : ℤ) → ℤ
  get_elapsed_date_time_ticks s timestamp =
      truncate (mul (of_int (get_raw_elapsed_ticks s timestamp)) tick_frequency)

  unfoldable pub elapsed_span : Stopwatch → (timestamp : ℤ) → TimeSpan
  elapsed_span s timestamp = from_ticks (get_elapsed_date_time_ticks s timestamp)

  unfoldable pub elapsed_milliseconds : Stopwatch → (timestamp : ℤ) → ℤ
  elapsed_milliseconds s timestamp =
      quot_ℤ (get_elapsed_date_time_ticks s timestamp) ticks_per_millisecond
