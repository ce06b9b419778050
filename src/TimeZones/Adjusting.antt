-- ===== src/TimeZones/Adjusting.antt =====
-- What CreateAdjustmentRule makes of its arguments.
use nuke.Base.{ℕ, ◌-◌, ◌*◌, ◌≤◌, ◌≡◌, refl, arith, Bool, true, false, inl, inr, Bool-cases}
use nuke.Base.Int.{ℤ, pos, negsuc, pos_part, neg_part, ◌+ℤ◌, ◌-ℤ◌, ltb_ℤ, int_laws}
use nuke.Base.Word.{IsInt64}
use nuke.Base.Result.{Result, ok, ◌>>=◌}
use nuke.DateTime.Value.{DateTime}
use nuke.TimeSpan.{from_ticks, add, subtract, negate, greater, less, ticks_per_hour}
use nuke.TimeZones.Rule.{
  AdjustmentRule, Deltas, adjust_daylight_delta, create_adjustment_rule, adjustment_rule,
  max_daylight_delta,
}

add_fits :
    (a b : ℤ)
    → IsInt64 a
    → IsInt64 b
    → IsInt64 (a +ℤ b)
    → add (from_ticks a) (from_ticks b) ≡ ok (from_ticks (a +ℤ b))
unfolding add ◌+ℤ◌
add_fits a b ha hb fits = ground arith

subtract_fits :
    (a b : ℤ)
    → IsInt64 a
    → IsInt64 b
    → IsInt64 (a -ℤ b)
    → subtract (from_ticks a) (from_ticks b) ≡ ok (from_ticks (a -ℤ b))
unfolding subtract ◌-ℤ◌
subtract_fits a b ha hb fits = ground arith

negate_max : negate max_daylight_delta ≡ ok (from_ticks (negsuc (12 * ticks_per_hour - 1)))
unfolding negate
negate_max = refl

-- The absolute value is at most so many hours.
abbrev pub WithinHours : ℕ → ℤ → Type 0
WithinHours n z = (pos_part z ≤ n * ticks_per_hour) × (neg_part z ≤ n * ticks_per_hour)

-- Deltas of the same sum, the first of at most twelve hours either way.
pub data Adjusted (a b : ℤ) : Result Deltas → Type 0 where
  adjusted :
      (a' b' : ℤ)
      → WithinHours 12 a'
      → a' +ℤ b' ≡ a +ℤ b
      → Adjusted a b
          (ok (record { daylight_delta = from_ticks a'; base_utc_offset_delta = from_ticks b' }))

abbrev day : ℤ
day = pos (24 * ticks_per_hour)

minus_plus : (a b d : ℤ) → a -ℤ d +ℤ (b +ℤ d) ≡ a +ℤ b
minus_plus a b d = grind int_laws

plus_minus : (a b d : ℤ) → a +ℤ d +ℤ (b -ℤ d) ≡ a +ℤ b
plus_minus a b d = grind int_laws

less_a_day :
    (a : ℤ)
    → ltb_ℤ (pos (12 * ticks_per_hour)) a ≡ true
    → WithinHours 36 a
    → WithinHours 12 (a -ℤ day)
unfolding ◌-ℤ◌
less_a_day a e small = ground (arith, e, small)

more_a_day :
    (a : ℤ)
    → ltb_ℤ a (negsuc (12 * ticks_per_hour - 1)) ≡ true
    → WithinHours 36 a
    → WithinHours 12 (a +ℤ day)
unfolding ◌+ℤ◌
more_a_day a e small = ground (arith, e, small)

unchanged :
    (a : ℤ)
    → ltb_ℤ (pos (12 * ticks_per_hour)) a ≡ false
    → ltb_ℤ a (negsuc (12 * ticks_per_hour - 1)) ≡ false
    → WithinHours 12 a
unchanged a e f = ground (arith, e, f)

-- The deltas of an adjustment and a base offset of hours stay in the range of int64_t.
difference-IsInt64 : (a b : ℤ) → WithinHours 36 a → WithinHours 36 b → IsInt64 (a -ℤ b)
unfolding ◌-ℤ◌
difference-IsInt64 a b ha hb = ground (arith, ha, hb)

sum-IsInt64 : (a b : ℤ) → WithinHours 36 a → WithinHours 36 b → IsInt64 (a +ℤ b)
unfolding ◌+ℤ◌
sum-IsInt64 a b ha hb = ground (arith, ha, hb)

hours-IsInt64 : (a : ℤ) → WithinHours 36 a → IsInt64 a
hours-IsInt64 a h = ground (arith, h)

day-WithinHours : WithinHours 36 day
day-WithinHours = ground arith

plus_day :
    (a : ℤ) → WithinHours 36 a → add (from_ticks a) (from_ticks day) ≡ ok (from_ticks (a +ℤ day))
plus_day a h =
    add_fits a day (hours-IsInt64 a h) (hours-IsInt64 day day-WithinHours)
      (sum-IsInt64 a day h day-WithinHours)

minus_day :
    (a : ℤ)
    → WithinHours 36 a
    → subtract (from_ticks a) (from_ticks day) ≡ ok (from_ticks (a -ℤ day))
minus_day a h =
    subtract_fits a day (hours-IsInt64 a h) (hours-IsInt64 day day-WithinHours)
      (difference-IsInt64 a day h day-WithinHours)

module _ (a b : ℤ) (small : WithinHours 36 a) (base_small : WithinHours 36 b) where
  adjust_large :
      ltb_ℤ (pos (12 * ticks_per_hour)) a ≡ true
      → Adjusted a b (adjust_daylight_delta (from_ticks a) (from_ticks b))
  unfolding adjust_daylight_delta greater less
  adjust_large e = rw (negate_max) (
      rw (e) (
        rw (minus_day a small) (
          rw (plus_day b base_small)
            (adjusted (a -ℤ day) (b +ℤ day) (less_a_day a e small) (minus_plus a b day)))))

  adjust_small :
      ltb_ℤ (pos (12 * ticks_per_hour)) a ≡ false
      → ltb_ℤ a (negsuc (12 * ticks_per_hour - 1)) ≡ true
      → Adjusted a b (adjust_daylight_delta (from_ticks a) (from_ticks b))
  unfolding adjust_daylight_delta greater less
  adjust_small e f = rw (negate_max) (
      rw (e) (
        rw (f) (
          rw (plus_day a small) (
            rw (minus_day b base_small)
              (adjusted (a +ℤ day) (b -ℤ day) (more_a_day a f small) (plus_minus a b day))))))

  adjust_nothing :
      ltb_ℤ (pos (12 * ticks_per_hour)) a ≡ false
      → ltb_ℤ a (negsuc (12 * ticks_per_hour - 1)) ≡ false
      → Adjusted a b (adjust_daylight_delta (from_ticks a) (from_ticks b))
  unfolding adjust_daylight_delta greater less
  adjust_nothing e f = rw (negate_max) (rw (e) (rw (f) (adjusted a b (unchanged a e f) refl)))

  adjust_daylight_delta-Adjusted :
      Adjusted a b (adjust_daylight_delta (from_ticks a) (from_ticks b))
  adjust_daylight_delta-Adjusted = elim (Bool-cases (ltb_ℤ (pos (12 * ticks_per_hour)) a)) [
    | inl e ↦ adjust_large e
    | inr e ↦ elim (Bool-cases (ltb_ℤ a (negsuc (12 * ticks_per_hour - 1)))) [
      | inl f ↦ adjust_small e f
      | inr f ↦ adjust_nothing e f
    ]
  ]

  -- A rule with adjusted deltas whose start is `date_end` and whose end is `unset`.
  pub data Stored (unset date_end : DateTime) (start end : ℕ) (no_transitions : Bool)
      : Result AdjustmentRule → Type 0 where
    stored :
        (a' b' : ℤ)
        → WithinHours 12 a'
        → a' +ℤ b' ≡ a +ℤ b
        → Stored unset date_end start end no_transitions (
            ok (record {
              date_start = date_end;
              date_end = unset;
              daylight_delta = from_ticks a';
              daylight_transition_start = start;
              daylight_transition_end = end;
              base_utc_offset_delta = from_ticks b';
              no_daylight_transitions = no_transitions;
            }))

  of_Adjusted :
      (r : Result Deltas)
      → Adjusted a b r
      → (unset date_start date_end : DateTime) (start end : ℕ) (no_transitions : Bool)
      → Stored unset date_end start end no_transitions (
          r >>= (λ deltas. ok (
            adjustment_rule unset date_start date_end deltas.daylight_delta start end
              deltas.base_utc_offset_delta no_transitions)))
  unfolding adjustment_rule
  of_Adjusted r (adjusted a' b' within sum) unset date_start date_end start end no_transitions =
      stored a' b' within sum

  -- If daylight delta and base offset are at most 36 hours either way, `CreateAdjustmentRule` makes
  -- a rule whose delta is at most 12 hours either way, with the same sum of delta and offset. Its
  -- start is the end that was given, and its end is what the member held before.
  pub create_adjustment_rule-Stored :
      (unset date_start date_end : DateTime) (start end : ℕ) (no_transitions : Bool)
      → Stored unset date_end start end no_transitions (
          create_adjustment_rule unset date_start date_end
            (from_ticks a)
            start
            end
            (from_ticks b)
            no_transitions)
  unfolding create_adjustment_rule
  create_adjustment_rule-Stored unset date_start date_end start end no_transitions =
      of_Adjusted (adjust_daylight_delta (from_ticks a) (from_ticks b))
        adjust_daylight_delta-Adjusted unset date_start date_end start end no_transitions
