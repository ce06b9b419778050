-- ===== src/Timers/Silence.antt =====
-- No handler of a timer is ever called.
use nuke.Base.{◌≡◌, refl, ◌∙◌, true, inl, inr, Bool-cases}
use nuke.Base.Int.{ℤ}
use nuke.Base.Result.{out_of_range}
use nuke.DateTime.KindLoss.{now_throws}
use nuke.Timers.{
  Timer, failed, new_timer, start, stop, test_stop, wake, time_out, set_auto_reset, set_enabled,
  set_interval,
}
use nuke.Timers.Steps.{
  InDates, Step, start_called, stop_called, tested, woken, timed_out, auto_reset_set, enabled_set,
  interval_set, handler_added, Reach, made, and_then,
}

module _ {Double World : Type 0} where
  start-world : (t : Timer Double World) → (start t).world ≡ t.world
  unfolding start
  start-world t = elim (Bool-cases t.need_stop) [ inl e ↦ rw (e) refl | inr e ↦ rw (e) refl ]

  stop-world : (t : Timer Double World) → (stop t).world ≡ t.world
  unfolding stop
  stop-world t = elim (Bool-cases t.need_stop) [ inl e ↦ rw (e) refl | inr e ↦ rw (e) refl ]

  time_out-enabled :
      (t : Timer Double World) (seconds second_offset : ℤ)
      → InDates seconds
      → t.enabled ≡ true
      → time_out t seconds second_offset ≡ record t { worker = failed out_of_range }
  unfolding time_out
  time_out-enabled t seconds second_offset in_dates on =
      rw (on) (rw ((now_throws seconds second_offset in_dates).1) refl)

  time_out-world :
      (t : Timer Double World) (seconds second_offset : ℤ)
      → InDates seconds
      → (time_out t seconds second_offset).world ≡ t.world
  unfolding time_out
  time_out-world t seconds second_offset in_dates = elim (Bool-cases t.enabled) [
    | inl on ↦ rw (time_out-enabled t seconds second_offset in_dates on) refl
    | inr off ↦ rw (off) refl
  ]

  Step-world : {t u : Timer Double World} → Step t u → u.world ≡ t.world
  unfolding test_stop wake set_auto_reset set_enabled set_interval
  Step-world (start_called t done) = start-world t
  Step-world (stop_called t) = stop-world t
  Step-world (tested t here) = refl
  Step-world (woken t here) = refl
  Step-world (timed_out t seconds second_offset here in_dates) =
      time_out-world t seconds second_offset in_dates
  Step-world (auto_reset_set t b) = refl
  Step-world (enabled_set t b) = refl
  Step-world (interval_set t d) = refl
  Step-world (handler_added t handler) = refl

  -- In every run of a timer in which the clock shows times in the range of dates, the handlers have
  -- changed nothing: the worker of an enabled timer throws before it calls the first one.
  pub Reach-world :
      {zero_double : Double} {world : World} {t : Timer Double World}
      → Reach zero_double world t
      → t.world ≡ world
  unfolding new_timer
  Reach-world made = refl
  Reach-world (and_then r s) = Step-world s ∙ Reach-world r
