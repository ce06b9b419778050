-- ===== src/TimeZones/Transition.antt =====
-- System/TransitionTime.cpp. A value here is the object that `internals` points to; `Rule` has the
-- pointers.
use nuke.Base.{◌-◌, ◌%◌, ◌^◌, Bool, true, false, not, ◌&&◌, ◌||◌, ltb, if◌then◌else◌}
use nuke.Base.Int.{ℤ, pos, negsuc, ltb_ℤ, eqb_ℤ, rem_ℤ}
use nuke.Base.Result.{Result, ok, invalid_argument, out_of_range, ◌>>◌, throw_if}
use nuke.DateTime.Value
use nuke.DateTime.Value.{DateTime, kind, ticks, unspecified}
use nuke.DateTime.Fields.{get_date}
use nuke.TimeSpan.{ticks_per_millisecond}

-- (int8_t)
unfoldable pub i8 : ℤ → ℤ
i8 (pos n) = let w = n % 2 ^ 8 in if ltb w (2 ^ 7) then pos w else negsuc (2 ^ 8 - 1 - w)
i8 (negsuc n) = let w = n % 2 ^ 8 in if ltb w (2 ^ 7) then negsuc w else pos (2 ^ 8 - 1 - w)

-- A DayOfWeek is the enumeration's underlying `int`.
pub record TransitionTime : Type 0 where
  pub time_of_day : DateTime
  pub month : ℤ
  pub week : ℤ
  pub day : ℤ
  pub day_of_week : ℤ
  pub is_fixed_date_rule : Bool

abbrev pub outside : (value low high : ℤ) → Bool
outside value low high = ltb_ℤ value low || ltb_ℤ high value

unfoldable pub validate_transition_time :
    (time_of_day : DateTime) (month week day day_of_week : ℤ) → Result (Unit {0})
validate_transition_time time_of_day month week day day_of_week =
    throw_if (not (eqb_ℤ (kind time_of_day) unspecified)) invalid_argument
    >> throw_if (outside month (pos 1) (pos 12)) out_of_range
    >> throw_if (outside day (pos 1) (pos 31)) out_of_range
    >> throw_if (outside week (pos 1) (pos 5)) out_of_range
    >> throw_if (outside day_of_week (pos 0) (pos 6)) out_of_range
    >> throw_if
        (not (eqb_ℤ (get_date time_of_day).year (pos 1))
          || not (eqb_ℤ (get_date time_of_day).month (pos 1))
          || not (eqb_ℤ (get_date time_of_day).day (pos 1))
          || not (eqb_ℤ (rem_ℤ (ticks time_of_day) ticks_per_millisecond) (pos 0)))
        invalid_argument

-- The private constructor.
unfoldable pub transition_time :
    (time_of_day : DateTime) (month week day day_of_week : ℤ) (is_fixed_date_rule : Bool)
    → Result TransitionTime
transition_time time_of_day month week day day_of_week is_fixed_date_rule =
    validate_transition_time time_of_day month week day day_of_week
    >> ok (record {
      time_of_day = time_of_day;
      month = i8 month;
      week = i8 week;
      day = i8 day;
      day_of_week = day_of_week;
      is_fixed_date_rule = is_fixed_date_rule;
    })

unfoldable pub create_fixed_date_rule :
    (time_of_day : DateTime) (month day : ℤ) → Result TransitionTime
create_fixed_date_rule time_of_day month day =
    transition_time time_of_day month (pos 1) day (pos 0) true

unfoldable pub create_floating_date_rule :
    (time_of_day : DateTime) (month week day_of_week : ℤ) → Result TransitionTime
create_floating_date_rule time_of_day month week day_of_week =
    transition_time time_of_day month week (pos 1) day_of_week false

abbrev same_rule : Bool → Bool → Bool
same_rule true b = b
same_rule false b = not b

unfoldable pub equals : TransitionTime → TransitionTime → Bool
equals t other =
    same_rule t.is_fixed_date_rule other.is_fixed_date_rule
    && Value.equals t.time_of_day other.time_of_day
    && eqb_ℤ t.month other.month
    && (if other.is_fixed_date_rule
        then eqb_ℤ t.day other.day
        else (eqb_ℤ t.week other.week && eqb_ℤ t.day_of_week other.day_of_week))
