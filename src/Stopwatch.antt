-- ===== src/Stopwatch.antt =====
-- System/Diagnostics/Stopwatch.cpp: the object behind a stopwatch as a state that every operation
-- takes and gives, with the reading of the clock as an argument where the code reads it.
-- Readings has the conversions to time spans, which multiply by a `double`.
pub mod Readings
pub mod Elapsing
pub mod Tests
use nuke.Base.{ℕ, Bool, true, false, if◌then◌else◌, List, [], ◌∷◌}
use nuke.Base.Int.{ℤ, pos, ◌+ℤ◌, ◌-ℤ◌, ltb_ℤ}
use nuke.Base.Word.{i64}

-- StopwatchImpl
pub record Stopwatch : Type 0 where
  pub elapsed : ℤ
  pub start_time_stamp : ℤ
  pub is_running : Bool

unfoldable pub start : Stopwatch → (timestamp : ℤ) → Stopwatch
start s timestamp =
    if s.is_running
    then s
    else record { elapsed = s.elapsed; start_time_stamp = timestamp; is_running = true }

-- A negative time is replaced by 0.
unfoldable pub stop : Stopwatch → (timestamp : ℤ) → Stopwatch
stop s timestamp =
    let elapsed_this_period = i64 (timestamp -ℤ s.start_time_stamp) in
    let elapsed = i64 (s.elapsed +ℤ elapsed_this_period) in
    if s.is_running
    then record {
      elapsed = (if ltb_ℤ elapsed (pos 0) then pos 0 else elapsed);
      start_time_stamp = s.start_time_stamp;
      is_running = false;
    }
    else s

unfoldable pub reset : Stopwatch → Stopwatch
reset s = record { elapsed = pos 0; start_time_stamp = pos 0; is_running = false }

unfoldable pub restart : Stopwatch → (timestamp : ℤ) → Stopwatch
restart s timestamp = record { elapsed = pos 0; start_time_stamp = timestamp; is_running = true }

-- The constructor, which resets.
unfoldable pub new_stopwatch : Stopwatch
new_stopwatch = reset (record { elapsed = pos 0; start_time_stamp = pos 0; is_running = false })

-- StartNew
unfoldable pub start_new : (timestamp : ℤ) → Stopwatch
start_new timestamp = start new_stopwatch timestamp

-- GetRawElapsedTicks, which is ElapsedTicks
unfoldable pub get_raw_elapsed_ticks : Stopwatch → (timestamp : ℤ) → ℤ
get_raw_elapsed_ticks s timestamp =
    if s.is_running then i64 (s.elapsed +ℤ i64 (timestamp -ℤ s.start_time_stamp)) else s.elapsed

-- A call of an operation, at a reading of the clock.
pub data Call : Type 0 where
  starts stops resets restarts : (time : ℕ) → Call

unfoldable pub perform : Stopwatch → Call → Stopwatch
perform s (starts time) = start s (pos time)
perform s (stops time) = stop s (pos time)
perform s (resets time) = reset s
perform s (restarts time) = restart s (pos time)

unfoldable pub perform_all : Stopwatch → List Call → Stopwatch
perform_all s [] = s
perform_all s (call ∷ calls) = perform_all (perform s call) calls
