-- ===== src/TimeZones/Rule.antt =====
-- System/AdjustmentRule.cpp and the copies of a TransitionTime. The class has a default copy
-- constructor and a destructor that deletes `internals`, so copies share one object: a transition
-- time here is the address of that object.
use nuke.Base.{ℕ, ◌*◌, ◌==◌, Bool, true, false, not, ◌&&◌, ◌||◌, List, [], ◌∷◌, if◌then◌else◌}
use nuke.Base.Int.{pos}
use nuke.Base.Result.{Result, ok, throws, undefined, ◌>>=◌}
use nuke.DateTime.Value
use nuke.DateTime.Value.{DateTime, min_value, from_data}
use nuke.TimeSpan
use nuke.TimeSpan.{
  TimeSpan, from_ticks, zero_span, ticks_per_hour, ticks_per_millisecond, add, subtract, negate,
  greater, less, not_equals,
}
use nuke.TimeZones.Transition
use nuke.TimeZones.Transition.{TransitionTime}

-- FromHours(24.0) and FromHours(12.0).
abbrev pub daylight_delta_adjustment : TimeSpan
daylight_delta_adjustment = from_ticks (pos (24 * ticks_per_hour))

abbrev pub max_daylight_delta : TimeSpan
max_daylight_delta = from_ticks (pos (12 * ticks_per_hour))

-- The objects that were allocated, and the addresses that were not deleted.
pub record Heap : Type 0 where
  pub live : List ℕ
  pub object : ℕ → TransitionTime

abbrev pub is_live : ℕ → List ℕ → Bool
is_live p [] = false
is_live p (q ∷ qs) = (p == q) || is_live p qs

abbrev pub without : ℕ → List ℕ → List ℕ
without p [] = []
without p (q ∷ qs) = let rest = without p qs in if p == q then rest else q ∷ rest

-- A read of an object, and `delete`.
unfoldable pub read : Heap → ℕ → Result TransitionTime
read heap p = if is_live p heap.live then ok (heap.object p) else throws undefined

unfoldable pub delete : Heap → ℕ → Result Heap
delete heap p =
    if is_live p heap.live
    then ok (record heap { live = without p heap.live })
    else throws undefined

-- AdjustmentRuleInternals
pub record AdjustmentRule : Type 0 where
  pub date_start : DateTime
  pub date_end : DateTime
  pub daylight_delta : TimeSpan
  pub daylight_transition_start : ℕ
  pub daylight_transition_end : ℕ
  pub base_utc_offset_delta : TimeSpan
  pub no_daylight_transitions : Bool

-- The private constructor. `unset` is what the default constructor of DateTime leaves in a member.
-- The end is stored over the start.
unfoldable pub adjustment_rule :
    (unset : DateTime) (date_start date_end : DateTime) (daylight_delta : TimeSpan)
    (daylight_transition_start daylight_transition_end : ℕ) (base_utc_offset_delta : TimeSpan)
    (no_daylight_transitions : Bool)
    → AdjustmentRule
adjustment_rule unset date_start date_end daylight_delta start end base no_transitions =
    let fresh : AdjustmentRule = record {
      date_start = date_start;
      date_end = unset;
      daylight_delta = daylight_delta;
      daylight_transition_start = start;
      daylight_transition_end = end;
      base_utc_offset_delta = base;
      no_daylight_transitions = no_transitions;
    } in
    record fresh { date_start = date_end }

pub record Deltas : Type 0 where
  pub daylight_delta : TimeSpan
  pub base_utc_offset_delta : TimeSpan

-- AdjustDaylightDeltaToExpectedRange, which changes its two arguments.
unfoldable pub adjust_daylight_delta :
    (daylight_delta base_utc_offset_delta : TimeSpan) → Result Deltas
adjust_daylight_delta daylight_delta base = do
  least ← negate max_daylight_delta
  if greater daylight_delta max_daylight_delta
      then (do
        delta ← subtract daylight_delta daylight_delta_adjustment
        offset ← add base daylight_delta_adjustment
        ok (record { daylight_delta = delta; base_utc_offset_delta = offset }))
      else if less daylight_delta least
      then (do
        delta ← add daylight_delta daylight_delta_adjustment
        offset ← subtract base daylight_delta_adjustment
        ok (record { daylight_delta = delta; base_utc_offset_delta = offset }))
      else ok (record { daylight_delta = daylight_delta; base_utc_offset_delta = base })

-- CreateAdjustmentRule with all arguments. The other two forms, which do not adjust, follow.
unfoldable pub create_adjustment_rule :
    (unset : DateTime) (date_start date_end : DateTime) (daylight_delta : TimeSpan)
    (daylight_transition_start daylight_transition_end : ℕ) (base_utc_offset_delta : TimeSpan)
    (no_daylight_transitions : Bool)
    → Result AdjustmentRule
create_adjustment_rule unset date_start date_end delta start end base no_transitions = do
  deltas ← adjust_daylight_delta delta base
  ok (
      adjustment_rule unset date_start date_end deltas.daylight_delta start end
        deltas.base_utc_offset_delta no_transitions)

unfoldable pub create_with_offset :
    (unset : DateTime) (date_start date_end : DateTime) (daylight_delta : TimeSpan)
    (daylight_transition_start daylight_transition_end : ℕ) (base_utc_offset_delta : TimeSpan)
    → AdjustmentRule
create_with_offset unset date_start date_end delta start end base =
    adjustment_rule unset date_start date_end delta start end base false

unfoldable pub create_plain :
    (unset : DateTime) (date_start date_end : DateTime) (daylight_delta : TimeSpan)
    (daylight_transition_start daylight_transition_end : ℕ)
    → AdjustmentRule
create_plain unset date_start date_end delta start end =
    adjustment_rule unset date_start date_end delta start end zero_span false

-- HasDaylightSaving. The getters return copies, which are destroyed at the end of the expression, the
-- later one first. The last operand compares with MinValue.AddMilliseconds(1).
unfoldable pub has_daylight_saving :
    AdjustmentRule → Heap → Result (record { heap : Heap; value : Bool })
has_daylight_saving rule heap =
    if not_equals rule.daylight_delta zero_span
    then ok (record { heap = heap; value = true })
    else (do
      start ← read heap rule.daylight_transition_start
      if Value.not_equals start.time_of_day min_value
          then (do
            after_start ← delete heap rule.daylight_transition_start
            ok (record { heap = after_start; value = true }))
          else (do
            end ← read heap rule.daylight_transition_end
            after_end ← delete heap rule.daylight_transition_end
            after_start ← delete after_end rule.daylight_transition_start
            ok (record {
              heap = after_start;
              value = Value.not_equals end.time_of_day (from_data ticks_per_millisecond);
            })))

-- Each operand of `&&` is read only if those before it hold.
unfoldable pub equals : Heap → AdjustmentRule → AdjustmentRule → Result Bool
equals heap rule other =
    if not (
      Value.equals rule.date_start other.date_start
      && Value.equals rule.date_end other.date_end
      && TimeSpan.equals rule.daylight_delta other.daylight_delta
      && TimeSpan.equals rule.base_utc_offset_delta other.base_utc_offset_delta)
    then ok false
    else (do
      end ← read heap rule.daylight_transition_end
      other_end ← read heap other.daylight_transition_end
      if not (Transition.equals end other_end) then ok false else (do
        start ← read heap rule.daylight_transition_start
        other_start ← read heap other.daylight_transition_start
        ok (Transition.equals start other_start)))
