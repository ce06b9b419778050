-- ===== src/Timers/Steps.antt =====
-- The steps of a timer, its worker and its user.
use nuke.Base.{◌≡◌, Bool}
use nuke.Base.Int.{ℤ, pos, scale_ℤ, ◌+ℤ◌}
use nuke.Base.Result.{Exception}
use nuke.DateTime.Value.{DateTime}
use nuke.DateTime.Calendar.{unix_epoch_ticks}
use nuke.DateTime.KindLoss.{InTicks}
use nuke.TimeSpan.{ticks_per_second}
use nuke.Timers.{
  Timer, Worker, not_started, at_test, waiting, ended, failed, new_timer, start, stop, test_stop,
  wake, time_out, set_auto_reset, set_enabled, set_interval, add_handler,
}

-- The worker is not running.
pub data IsDone : Worker → Type 0 where
  none_yet : IsDone not_started
  has_ended : IsDone ended
  has_failed : (e : Exception) → IsDone (failed e)

-- The clock shows a time in the range of dates.
abbrev pub InDates : ℤ → Type 0
InDates seconds = InTicks (scale_ℤ seconds ticks_per_second +ℤ pos unix_epoch_ticks)

module _ {Double World : Type 0} where
  pub data Step : Timer Double World → Timer Double World → Type 1 where
    start_called : (t : Timer Double World) → IsDone t.worker → Step t (start t)
    stop_called : (t : Timer Double World) → Step t (stop t)
    tested : (t : Timer Double World) → t.worker ≡ at_test → Step t (test_stop t)
    woken : (t : Timer Double World) → t.worker ≡ waiting → Step t (wake t)
    timed_out :
        (t : Timer Double World) (seconds second_offset : ℤ)
        → t.worker ≡ waiting
        → InDates seconds
        → Step t (time_out t seconds second_offset)
    auto_reset_set : (t : Timer Double World) (b : Bool) → Step t (set_auto_reset t b)
    enabled_set : (t : Timer Double World) (b : Bool) → Step t (set_enabled t b)
    interval_set : (t : Timer Double World) (d : Double) → Step t (set_interval t d)
    handler_added :
        (t : Timer Double World) (handler : DateTime → World → World)
        → Step t (record t { handlers = add_handler t.handlers handler })

  -- From a new timer.
  pub data Reach (zero_double : Double) (world : World) : Timer Double World → Type 1 where
    made : Reach zero_double world (new_timer zero_double world)
    and_then :
        {t u : Timer Double World}
        → Reach zero_double world t
        → Step t u
        → Reach zero_double world u
