-- ===== src/Timers.antt =====
-- System/Timers/Timer.cpp and System/Event.h. The worker thread holds the mutex except while it
-- waits, so what it does from one wait to the next test of `_needStop` is one step.
pub mod Steps
pub mod Silence
mod Tests
use nuke.Base.{Bool, true, false, not, List, [], ◌∷◌, ◌++◌, if◌then◌else◌}
use nuke.Base.Int.{ℤ}
use nuke.Base.Result.{Result, Exception, ok, throws}
use nuke.DateTime.Value.{DateTime}
use nuke.DateTime.Shift.{now}

-- An Event whose handlers change a `World`.
module _ {Args World : Type 0} where
  unfoldable pub add_handler :
      List (Args → World → World) → (Args → World → World) → List (Args → World → World)
  add_handler handlers handler = handlers ++ handler ∷ []

  -- Raise calls the handlers in the order in which they were added.
  unfoldable pub raise : List (Args → World → World) → Args → World → World
  raise [] args world = world
  raise (handler ∷ handlers) args world = raise handlers args (handler args world)

-- Where the worker is. What it throws is kept in the future, which nothing reads.
pub data Worker : Type 0 where
  not_started at_test waiting ended : Worker
  failed : Exception → Worker

-- An interval is a `double`, in milliseconds.
pub record Timer (Double World : Type 0) : Type 1 where
  pub handlers : List (DateTime → World → World)
  pub auto_reset : Bool
  pub enabled : Bool
  pub interval : Double
  pub need_stop : Bool
  pub worker : Worker
  pub world : World

module _ {Double World : Type 0} where
  unfoldable pub new_timer : (zero_double : Double) (world : World) → Timer Double World
  new_timer zero_double world = record {
    handlers = [];
    auto_reset = false;
    enabled = true;
    interval = zero_double;
    need_stop = true;
    worker = not_started;
    world = world;
  }

  unfoldable pub start : Timer Double World → Timer Double World
  start t = if not t.need_stop then t else record t { need_stop = false; worker = at_test }

  -- Stop up to the wait for the worker.
  unfoldable pub stop : Timer Double World → Timer Double World
  stop t = if t.need_stop then t else record t { need_stop = true }

  -- The test of the loop.
  unfoldable pub test_stop : Timer Double World → Timer Double World
  test_stop t = record t { worker = if not t.need_stop then waiting else ended }

  -- A wait that ends before its time.
  unfoldable pub wake : Timer Double World → Timer Double World
  wake t = record t { worker = at_test }

  abbrev pub with_signal_time : Timer Double World → Result DateTime → Timer Double World
  with_signal_time t (throws e) = record t { worker = failed e }
  with_signal_time t (ok signal_time) = record t {
    world = raise t.handlers signal_time t.world;
    worker = at_test;
  }

  -- A wait that times out, with the clock's reading and the offset of the local time.
  unfoldable pub time_out : Timer Double World → (seconds second_offset : ℤ) → Timer Double World
  time_out t seconds second_offset =
      if t.enabled
      then with_signal_time t (now seconds second_offset)
      else record t { worker = at_test }

  unfoldable pub set_auto_reset : Timer Double World → Bool → Timer Double World
  set_auto_reset t auto_reset = record t { auto_reset = auto_reset }

  unfoldable pub set_enabled : Timer Double World → Bool → Timer Double World
  set_enabled t enabled = record t { enabled = enabled }

  unfoldable pub set_interval : Timer Double World → Double → Timer Double World
  set_interval t interval = record t { interval = interval }
