-- ===== src/TimeZones/Validity.antt =====
-- Which transition times are accepted.
use nuke.Base.{
  ℕ, ◌%◌, ◌≤◌, ◌<◌, ◌==◌, ◌≡◌, refl, sym, ap, ◌∙◌, arith, Bool, true, false, not, ◌||◌, ◌⊎◌, inl,
  inr, ltb, if◌then◌else◌, Bool-cases, ltb→lt, ==_iff,
}
use nuke.Base.Int.{ℤ, pos, ◌≤ℤ◌, eqb_ℤ, rem_ℤ, eq_of_parts}
use nuke.Base.Result.{
  Exception, ok, throws, invalid_argument, out_of_range, ◌>>◌, throw_if, ByCases, ByCases-of,
}
use nuke.DateTime.Gregorian.{IsDate, day_number}
use nuke.DateTime.Parts.{OnDate, get_date-OnDate, ticks-u_ticks}
use nuke.DateTime.Value.{DateTime, kind, ticks, u_ticks, unspecified}
use nuke.DateTime.Fields.{get_date, Date}
use nuke.TimeSpan.{ticks_per_day, ticks_per_millisecond}
use nuke.TimeZones.Transition.{
  TransitionTime, i8, outside, validate_transition_time, transition_time,
}

abbrev pub Between : (value low high : ℤ) → Type 0
Between value low high = (low ≤ℤ value) × (value ≤ℤ high)

-- A time on the first day that is a whole number of milliseconds, without a kind, and numbers in
-- their ranges.
pub record IsValid (time : DateTime) (month week day day_of_week : ℤ) : Type 0 where
  pub no_kind : kind time ≡ unspecified
  pub on_first_day : u_ticks time < ticks_per_day
  pub whole : u_ticks time % ticks_per_millisecond ≡ 0
  pub month_between : Between month (pos 1) (pos 12)
  pub day_between : Between day (pos 1) (pos 31)
  pub week_between : Between week (pos 1) (pos 5)
  pub weekday_between : Between day_of_week (pos 0) (pos 6)

first-IsDate : IsDate 1 1 1
first-IsDate = record {
  year_from = omega arith;
  year_to = omega arith;
  month_from = omega arith;
  month_to = omega arith;
  day_from = omega arith;
  day_to = omega arith;
}

abbrev first : Date
first = record { year = pos 1; month = pos 1; day = pos 1 }

day_number_first : day_number 1 1 1 ≡ 0
unfolding day_number nuke.DateTime.Gregorian.years_length
day_number_first = refl

day_number_of : (y m d : ℕ) → y ≡ 1 → m ≡ 1 → d ≡ 1 → day_number y m d ≡ 0
day_number_of y m d ey em ed = rw (ey, em, ed) day_number_first

abbrev late_date : Date → Bool
late_date date =
    not (eqb_ℤ date.year (pos 1)) || not (eqb_ℤ date.month (pos 1)) || not (eqb_ℤ date.day (pos 1))

not_late :
    (y m d : ℕ)
    → late_date (record { year = pos y; month = pos m; day = pos d }) ≡ false
    → (y ≡ 1) × (m ≡ 1) × (d ≡ 1)
not_late y m d e = (ground (arith, e), ground (arith, e), ground (arith, e))

module _ (y m d : ℕ) (v : IsDate y m d) (t : DateTime) (on : OnDate y m d t) where
  late_date_early : u_ticks t < ticks_per_day → late_date (get_date t) ≡ false
  late_date_early early =
      ap late_date (get_date-OnDate 1 1 1 first-IsDate t (omega (arith, early, day_number_first)))

  late_date_late : ticks_per_day ≤ u_ticks t → late_date (get_date t) ≡ true
  late_date_late late = elim (Bool-cases (late_date (get_date t))) [
    | inl e ↦ e
    | inr e ↦
        let is_first = not_late y m d (sym (ap late_date (get_date-OnDate y m d v t on)) ∙ e) in
        absurd (omega (arith, late, on, day_number_of y m d is_first.0 is_first.1 is_first.2))
  ]

  late_date_test : late_date (get_date t) ≡ not (ltb (u_ticks t) ticks_per_day)
  late_date_test = ground (arith, late_date_early, late_date_late)

Between-outside : (value low high : ℤ) → Between value low high → outside value low high ≡ false
Between-outside value low high b = ground (arith, b.0, b.1)

outside-Between : (value low high : ℤ) → outside value low high ≡ false → Between value low high
outside-Between value low high e = (ground (arith, e), ground (arith, e))

true_not_false : ¬ (true ≡ false)
true_not_false e = ground (arith, e)

-- A test that nothing is wrong is one of each part.
all_right :
    (k mo da we wd late part : Bool)
    → (k || (mo || (da || (we || wd))) || (late || part)) ≡ false
    → (k ≡ false)
      × (mo ≡ false)
      × (da ≡ false)
      × (we ≡ false)
      × (wd ≡ false)
      × (late ≡ false)
      × (part ≡ false)
all_right false false false false false false false e = (refl, refl, refl, refl, refl, refl, refl)
all_right false false false false false false true e = absurd (true_not_false e)
all_right false false false false false true part e = absurd (true_not_false e)
all_right false false false false true late part e = absurd (true_not_false e)
all_right false false false true wd late part e = absurd (true_not_false e)
all_right false false true we wd late part e = absurd (true_not_false e)
all_right false true da we wd late part e = absurd (true_not_false e)
all_right true mo da we wd late part e = absurd (true_not_false e)

not-not : {b : Bool} → not b ≡ false → b ≡ true
not-not e = ground (arith, e)

kind_of : (k : ℤ) → not (eqb_ℤ k unspecified) ≡ false → k ≡ unspecified
kind_of k e = eq_of_parts k unspecified (ground (arith, e))

abbrev out_of_ranges : (month week day day_of_week : ℤ) → Bool
out_of_ranges month week day day_of_week =
    outside month (pos 1) (pos 12)
    || (outside day (pos 1) (pos 31)
        || (outside week (pos 1) (pos 5) || outside day_of_week (pos 0) (pos 6)))

-- The kind is tested before the ranges, and the date behind them.
abbrev pub error_of : (time : DateTime) (month week day day_of_week : ℤ) → Exception
error_of time month week day day_of_week =
    if not (eqb_ℤ (kind time) unspecified)
    then invalid_argument
    else if out_of_ranges month week day day_of_week
    then out_of_range
    else invalid_argument

checks_in_order :
    {A : Type 0} (kind_bad month_bad day_bad week_bad weekday_bad date_bad : Bool) (value : A)
    → ((throw_if kind_bad invalid_argument
          >> throw_if month_bad out_of_range
          >> throw_if day_bad out_of_range
          >> throw_if week_bad out_of_range
          >> throw_if weekday_bad out_of_range
          >> throw_if date_bad invalid_argument)
        >> ok value)
      ≡ (if kind_bad || (month_bad || (day_bad || (week_bad || weekday_bad))) || date_bad
          then throws (
              if kind_bad
              then invalid_argument
              else if month_bad || (day_bad || (week_bad || weekday_bad))
              then out_of_range
              else invalid_argument)
          else ok value)
checks_in_order true mo da we wd de value = refl
checks_in_order false true da we wd de value = refl
checks_in_order false false true we wd de value = refl
checks_in_order false false false true wd de value = refl
checks_in_order false false false false true de value = refl
checks_in_order false false false false false true value = refl
checks_in_order false false false false false false value = refl

i8_small : (z : ℤ) → Between z (pos 0) (pos 31) → i8 z ≡ z
unfolding i8
i8_small z b = ground (arith, b.0, b.1)

module _ (y m d : ℕ) (v : IsDate y m d) (time : DateTime) (on : OnDate y m d time)
    (month week day day_of_week : ℤ) where
  abbrev kind_bad : Bool
  kind_bad = not (eqb_ℤ (kind time) unspecified)

  abbrev date_bad : Bool
  date_bad =
      late_date (get_date time) || not (eqb_ℤ (rem_ℤ (ticks time) ticks_per_millisecond) (pos 0))

  whole_test :
      eqb_ℤ (rem_ℤ (ticks time) ticks_per_millisecond) (pos 0)
      ≡ (u_ticks time % ticks_per_millisecond == 0)
  whole_test = rw (ticks-u_ticks time) (ground arith)

  abbrev bad : Bool
  bad = kind_bad || out_of_ranges month week day day_of_week || date_bad

  early_of :
      {late : Bool}
      → late ≡ not (ltb (u_ticks time) ticks_per_day)
      → late ≡ false
      → u_ticks time < ticks_per_day
  early_of e f = ltb→lt (u_ticks time) ticks_per_day (not-not (sym e ∙ f))

  whole_of :
      {whole : Bool}
      → whole ≡ (u_ticks time % ticks_per_millisecond == 0)
      → not whole ≡ false
      → u_ticks time % ticks_per_millisecond ≡ 0
  whole_of e f = (==_iff (u_ticks time % ticks_per_millisecond) 0).0 (sym e ∙ not-not f)

  IsValid-passes : IsValid time month week day day_of_week → bad ≡ false
  IsValid-passes h = rw (late_date_test y m d v time on) (
      rw (whole_test) (
        ground (
          arith,
          h.no_kind,
          h.on_first_day,
          h.whole,
          Between-outside month (pos 1) (pos 12) h.month_between,
          Between-outside day (pos 1) (pos 31) h.day_between,
          Between-outside week (pos 1) (pos 5) h.week_between,
          Between-outside day_of_week (pos 0) (pos 6) h.weekday_between,
        )))

  passed-IsValid : bad ≡ false → IsValid time month week day day_of_week
  passed-IsValid e =
      let right =
        all_right kind_bad (outside month (pos 1) (pos 12)) (outside day (pos 1) (pos 31))
          (outside week (pos 1) (pos 5)) (outside day_of_week (pos 0) (pos 6))
          (late_date (get_date time))
          (not (eqb_ℤ (rem_ℤ (ticks time) ticks_per_millisecond) (pos 0))) e in
      record {
        no_kind = kind_of (kind time) right.0;
        month_between = outside-Between month (pos 1) (pos 12) right.1;
        day_between = outside-Between day (pos 1) (pos 31) right.2;
        week_between = outside-Between week (pos 1) (pos 5) right.3;
        weekday_between = outside-Between day_of_week (pos 0) (pos 6) right.4;
        on_first_day = early_of (late_date_test y m d v time on) right.5;
        whole = whole_of whole_test right.6;
      }

  transition_time_test :
      (fixed : Bool)
      → transition_time time month week day day_of_week fixed ≡ (
          if bad
          then throws (error_of time month week day day_of_week)
          else ok (record {
            time_of_day = time;
            month = i8 month;
            week = i8 week;
            day = i8 day;
            day_of_week = day_of_week;
            is_fixed_date_rule = fixed;
          }))
  unfolding transition_time validate_transition_time
  transition_time_test fixed =
      checks_in_order kind_bad (outside month (pos 1) (pos 12)) (outside day (pos 1) (pos 31))
        (outside week (pos 1) (pos 5)) (outside day_of_week (pos 0) (pos 6)) date_bad _

  abbrev pub as_given : Bool → TransitionTime
  as_given fixed = record {
    time_of_day = time;
    month = month;
    week = week;
    day = day;
    day_of_week = day_of_week;
    is_fixed_date_rule = fixed;
  }

  accepted :
      (fixed : Bool)
      → IsValid time month week day day_of_week
      → transition_time time month week day day_of_week fixed ≡ ok (as_given fixed)
  accepted fixed h =
      transition_time_test fixed
      ∙ rw (IsValid-passes h) (
          rw (i8_small month (omega (arith, h.month_between))) (
            rw (i8_small week (omega (arith, h.week_between)))
              (rw (i8_small day (omega (arith, h.day_between))) refl)))

  refused :
      (fixed : Bool)
      → ¬ IsValid time month week day day_of_week
      → transition_time time month week day day_of_week fixed
        ≡ throws (error_of time month week day day_of_week)
  refused fixed n = elim (Bool-cases bad) [
    | inl e ↦ transition_time_test fixed ∙ rw (e) refl
    | inr e ↦ absurd (n (passed-IsValid e))
  ]

  decided : IsValid time month week day day_of_week ⊎ (¬ IsValid time month week day day_of_week)
  decided = elim (Bool-cases bad) [
    | inl e ↦ inr (λ h. true_not_false (sym e ∙ IsValid-passes h))
    | inr e ↦ inl (passed-IsValid e)
  ]

  -- For a time on any Gregorian date and any numbers, a TransitionTime with these members is made
  -- if the time has no kind, lies on the first day and is a whole number of milliseconds, and
  -- month, day, week and weekday lie in 1 to 12, 1 to 31, 1 to 5 and 0 to 6; if not, the
  -- constructor throws invalid_argument for a kind, then out_of_range for a number, then
  -- invalid_argument for the time.
  pub transition_time-Accepted :
      (fixed : Bool)
      → ByCases
          (IsValid time month week day day_of_week)
          (ok (as_given fixed))
          (throws (error_of time month week day day_of_week))
          (transition_time time month week day day_of_week fixed)
  transition_time-Accepted fixed =
      ByCases-of (transition_time time month week day day_of_week fixed) decided (accepted fixed)
        (refused fixed)
