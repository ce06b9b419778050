-- ===== src/TimeZones/Tests.antt =====
-- A transition time, a rule and a table of time zones.
use nuke.Base.{◌+◌, ℕ, ◌-◌, ◌*◌, ◌/◌, ◌-◌, ◌≡◌, refl, arith, false, [], ◌∷◌, ◌++◌, none, some}
use nuke.Base.Int.{pos, negsuc}
use nuke.Base.Result.{ok, throws, undefined, ◌>>=◌, ByCases}
use nuke.DateTime.Gregorian.{IsDate}
use nuke.DateTime.Parts.{OnDate}
use nuke.DateTime.Value.{DateTime, from_data, u_ticks, ticks}
use nuke.TimeSpan.{from_ticks, zero_span, ticks_per_hour, not_equals}
use nuke.Text.{split, cut}
use nuke.Text.Numbers.{stoi}
use nuke.TimeSpan.{from_time}
use nuke.TimeZones.Loading.{parse_offset}
use nuke.TimeZones.Transition.{TransitionTime, transition_time}
use nuke.TimeZones.Validity.{IsValid, as_given, error_of, transition_time-Accepted}
use nuke.TimeZones.Rule.{AdjustmentRule, Heap, has_daylight_saving, create_adjustment_rule}
use nuke.TimeZones.Adjusting.{Stored, create_adjustment_rule-Stored}
use nuke.TimeZones.Ownership.{has_daylight_saving_twice}
use nuke.TimeZones.Database.{tab, parse_time_zone_ids}
use nuke.TimeZones.Database.Rows.{Row, IsRow, print_rows, ids, parse_time_zone_ids-print_rows}

-- Two o'clock on the first day, and the last Sunday of October.
abbrev two_o_clock : DateTime
two_o_clock = from_data (2 * ticks_per_hour)

first-IsDate : IsDate 1 1 1
first-IsDate = record {
  year_from = omega arith;
  year_to = omega arith;
  month_from = omega arith;
  month_to = omega arith;
  day_from = omega arith;
  day_to = omega arith;
}

two_o_clock-OnDate : OnDate 1 1 1 two_o_clock
unfolding u_ticks ticks nuke.DateTime.Gregorian.day_number nuke.DateTime.Gregorian.years_length
two_o_clock-OnDate = refl

transition_time-Accepted_example :
    ByCases
      (IsValid two_o_clock (pos 10) (pos 5) (pos 1) (pos 0))
      (ok (
        as_given 1 1 1 first-IsDate two_o_clock two_o_clock-OnDate
          (pos 10)
          (pos 5)
          (pos 1)
          (pos 0)
          false))
      (throws (error_of two_o_clock (pos 10) (pos 5) (pos 1) (pos 0)))
      (transition_time two_o_clock (pos 10) (pos 5) (pos 1) (pos 0) false)
transition_time-Accepted_example =
    transition_time-Accepted 1 1 1 first-IsDate two_o_clock two_o_clock-OnDate (pos 10) (pos 5)
      (pos 1) (pos 0) false

-- A delta of 13 hours with an offset of -1 hour.
create_adjustment_rule-Stored_example :
    Stored
      (pos (13 * ticks_per_hour))
      (negsuc (ticks_per_hour - 1))
      (omega arith, omega arith)
      (omega arith, omega arith)
      (from_data 77)
      (from_data 20)
      1
      2
      false
      (create_adjustment_rule
        (from_data 77)
        (from_data 10)
        (from_data 20)
        (from_ticks (pos (13 * ticks_per_hour)))
        1
        2
        (from_ticks (negsuc (ticks_per_hour - 1)))
        false)
create_adjustment_rule-Stored_example =
    create_adjustment_rule-Stored (pos (13 * ticks_per_hour)) (negsuc (ticks_per_hour - 1))
      (omega arith, omega arith) (omega arith, omega arith) (from_data 77) (from_data 10)
      (from_data 20) 1 2 false

abbrev october : TransitionTime
october = record {
  time_of_day = two_o_clock;
  month = pos 10;
  week = pos 5;
  day = pos 1;
  day_of_week = pos 0;
  is_fixed_date_rule = false;
}

abbrev heap : Heap
heap = record { live = 1 ∷ 2 ∷ []; object = λ (p : ℕ). october }

abbrev rule : AdjustmentRule
rule = record {
  date_start = from_data 20;
  date_end = from_data 77;
  daylight_delta = zero_span;
  daylight_transition_start = 1;
  daylight_transition_end = 2;
  base_utc_offset_delta = zero_span;
  no_daylight_transitions = false;
}

no_delta : not_equals rule.daylight_delta zero_span ≡ false
unfolding not_equals
no_delta = refl

has_daylight_saving_twice_example :
    (has_daylight_saving rule heap >>= (λ first. has_daylight_saving rule first.heap))
    ≡ throws undefined
has_daylight_saving_twice_example = has_daylight_saving_twice rule no_delta heap

-- AD, +42, the name Eu/A and no comments; CN, +31, As/S and a comment.
abbrev andorra : Row
andorra = record {
  territory = b'A' ∷ b'D' ∷ [];
  coordinates = b'+' ∷ b'4' ∷ b'2' ∷ [];
  id = b'E' ∷ b'u' ∷ b'/' ∷ b'A' ∷ [];
  comments = none;
}

abbrev china : Row
china = record {
  territory = b'C' ∷ b'N' ∷ [];
  coordinates = b'+' ∷ b'3' ∷ b'1' ∷ [];
  id = b'A' ∷ b's' ∷ b'/' ∷ b'S' ∷ [];
  comments = some (b'B' ∷ tab ∷ b'J' ∷ []);
}

andorra-IsRow : IsRow andorra
andorra-IsRow = record {
  territory_tab = (omega arith, (omega arith, tt));
  territory_line = (omega arith, (omega arith, tt));
  territory_hash = omega arith;
  coordinates_tab = (omega arith, (omega arith, (omega arith, tt)));
  coordinates_line = (omega arith, (omega arith, (omega arith, tt)));
  id_tab = (omega arith, (omega arith, (omega arith, (omega arith, tt))));
  id_line = (omega arith, (omega arith, (omega arith, (omega arith, tt))));
  id_given = omega arith;
  comments_line = tt;
}

china-IsRow : IsRow china
china-IsRow = record {
  territory_tab = (omega arith, (omega arith, tt));
  territory_line = (omega arith, (omega arith, tt));
  territory_hash = omega arith;
  coordinates_tab = (omega arith, (omega arith, (omega arith, tt)));
  coordinates_line = (omega arith, (omega arith, (omega arith, tt)));
  id_tab = (omega arith, (omega arith, (omega arith, (omega arith, tt))));
  id_line = (omega arith, (omega arith, (omega arith, (omega arith, tt))));
  id_given = omega arith;
  comments_line = (omega arith, (omega arith, (omega arith, tt)));
}

parse_time_zone_ids-print_rows_example :
    parse_time_zone_ids (print_rows (andorra ∷ china ∷ []) ++ b'A' ∷ b'F' ∷ [])
    ≡ ids (andorra ∷ china ∷ [])
parse_time_zone_ids-print_rows_example =
    parse_time_zone_ids-print_rows (andorra ∷ china ∷ []) (b'A' ∷ b'F' ∷ [])
      (andorra-IsRow, (china-IsRow, tt)) (omega arith, (omega arith, tt))

-- "-03:30:00" is read as two and a half hours to the west.
half_past :
    parse_offset (b'-' ∷ b'0' ∷ b'3' ∷ b':' ∷ b'3' ∷ b'0' ∷ b':' ∷ b'0' ∷ b'0' ∷ [])
    ≡ ok (from_ticks (negsuc (2 * ticks_per_hour + ticks_per_hour / 2 - 1)))
unfolding parse_offset split cut stoi from_time nuke.TimeSpan.time_to_ticks nuke.Base.Int.◌+ℤ◌
    nuke.Base.Memory.index nuke.Base.Int.scale_ℤ
half_past = refl
