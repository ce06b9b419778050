-- ===== src/Timers/Tests.antt =====
-- A timer with one handler, which counts.
use nuke.Base.{ℕ, suc, ◌≡◌, refl, arith, true, false, [], ◌∷◌}
use nuke.Base.Int.{pos, scale_ℤ, ◌+ℤ◌}
use nuke.DateTime.Value.{DateTime, from_data}
use nuke.Timers.{
  Timer, waiting, at_test, not_started, new_timer, start, test_stop, time_out, add_handler, raise,
}
use nuke.Timers.Steps.{
  InDates, Step, start_called, tested, timed_out, handler_added, Reach, made, and_then, none_yet,
}
use nuke.Timers.Silence.{Reach-world}

abbrev count : DateTime → ℕ → ℕ
count time n = suc n

abbrev with_handler : Timer ℕ ℕ
with_handler = record {
  handlers = count ∷ [];
  auto_reset = false;
  enabled = true;
  interval = 10;
  need_stop = true;
  worker = not_started;
  world = 0;
}

abbrev started : Timer ℕ ℕ
started = record with_handler { need_stop = false; worker = at_test }

abbrev asleep : Timer ℕ ℕ
asleep = record started { worker = waiting }

to_with_handler : Step (new_timer 10 0) with_handler
unfolding new_timer add_handler
to_with_handler = handler_added (new_timer 10 0) count

to_started : Step with_handler started
unfolding start
to_started = start_called with_handler none_yet

to_asleep : Step started asleep
unfolding test_stop
to_asleep = tested started refl

in_dates : InDates (pos 1700000000)
unfolding scale_ℤ ◌+ℤ◌
in_dates = omega arith

asleep-Reach : Reach 10 0 asleep
asleep-Reach = and_then (and_then (and_then made to_with_handler) to_started) to_asleep

Reach-world_example : (time_out asleep (pos 1700000000) (pos 3600)).world ≡ 0
Reach-world_example =
    Reach-world (and_then asleep-Reach (timed_out asleep (pos 1700000000) (pos 3600) refl in_dates))

-- A handler that is called counts.
raised : raise (count ∷ count ∷ []) (from_data 5) 0 ≡ 2
unfolding raise
raised = refl
