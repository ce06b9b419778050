-- ===== src/TimeSpan/Parts.antt =====
-- The constructors and the parts of a time span. Both cut towards zero, so the parts of a negative
-- time span are negative or zero.
use nuke.Base.{ℕ, ◌+◌, ◌*◌, ◌/◌, ◌%◌, ◌^◌, ◌≤◌, ◌<◌, ◌≡◌, arith, ◌⊎◌, Bool, true, false, ◌||◌}
use nuke.Base.Int.{ltb_ℤ, ℤ, pos, negsuc, pos_part, neg_part, ◌+ℤ◌, ◌≤ℤ◌, scale_ℤ, int_bounds}
use nuke.Base.Word.{IsInt32, IsInt64, i64, IsInt32-parts}
use nuke.Base.Result.{ok, throws, out_of_range, ByCases, ByCases-of}
use nuke.TimeSpan.Overflow.{i64_lem}
use nuke.TimeSpan.{
  from_ticks, min_milliseconds, max_milliseconds, ticks_per_millisecond, ticks_per_second,
  ticks_per_minute, ticks_per_hour, ticks_per_day, days, hours, minutes, seconds, milliseconds,
  from_days_time_milliseconds,
}

abbrev total : ℕ → ℕ → ℕ → ℕ → ℕ → ℕ → ℕ
total d h m s ms rest =
    d * ticks_per_day
    + h * ticks_per_hour
    + m * ticks_per_minute
    + s * ticks_per_second
    + ms * ticks_per_millisecond
    + rest

-- Each part is in its range, and with the ticks of the last millisecond they make up the ticks. The
-- positive sides and the negative sides add up apart, so no part has the other sign.
pub record IsParted (z d h m s ms : ℤ) : Type 0 where
  pub positive :
      pos_part z
      ≡ total
          (pos_part d)
          (pos_part h)
          (pos_part m)
          (pos_part s)
          (pos_part ms)
          (pos_part z % ticks_per_millisecond)
  pub negative :
      neg_part z
      ≡ total
          (neg_part d)
          (neg_part h)
          (neg_part m)
          (neg_part s)
          (neg_part ms)
          (neg_part z % ticks_per_millisecond)
  pub hours_in : (pos_part h ≤ 23) × (neg_part h ≤ 23)
  pub minutes_in : (pos_part m ≤ 59) × (neg_part m ≤ 59)
  pub seconds_in : (pos_part s ≤ 59) × (neg_part s ≤ 59)
  pub milliseconds_in : (pos_part ms ≤ 999) × (neg_part ms ≤ 999)

-- What an accessor returns, with its magnitude on each side.
abbrev Sides : ℤ → ℕ → ℕ → Type 0
Sides z p n = (pos_part z ≡ p) × (neg_part z ≡ n)

days-Sides :
    (z : ℤ)
    → IsInt64 z
    → Sides (days (from_ticks z)) (pos_part z / ticks_per_day) (neg_part z / ticks_per_day)
unfolding days
days-Sides (pos n) h = ground arith
days-Sides (negsuc n) h = ground arith

hours-Sides :
    (z : ℤ)
    → IsInt64 z
    → Sides
        (hours (from_ticks z))
        (pos_part z / ticks_per_hour % 24)
        (neg_part z / ticks_per_hour % 24)
unfolding hours
hours-Sides (pos n) h = ground arith
hours-Sides (negsuc n) h = ground arith

minutes-Sides :
    (z : ℤ)
    → IsInt64 z
    → Sides
        (minutes (from_ticks z))
        (pos_part z / ticks_per_minute % 60)
        (neg_part z / ticks_per_minute % 60)
unfolding minutes
minutes-Sides (pos n) h = ground arith
minutes-Sides (negsuc n) h = ground arith

seconds-Sides :
    (z : ℤ)
    → IsInt64 z
    → Sides
        (seconds (from_ticks z))
        (pos_part z / ticks_per_second % 60)
        (neg_part z / ticks_per_second % 60)
unfolding seconds
seconds-Sides (pos n) h = ground arith
seconds-Sides (negsuc n) h = ground arith

milliseconds-Sides :
    (z : ℤ)
    → IsInt64 z
    → Sides
        (milliseconds (from_ticks z))
        (pos_part z / ticks_per_millisecond % 1000)
        (neg_part z / ticks_per_millisecond % 1000)
unfolding milliseconds
milliseconds-Sides (pos n) h = ground arith
milliseconds-Sides (negsuc n) h = ground arith

-- For every int64_t number of ticks `Days`, `Hours`, `Minutes`, `Seconds` and `Milliseconds` lie
-- in their ranges, have the sign of the ticks, and make the ticks up to less than a millisecond.
pub parts-IsParted :
    (z : ℤ)
    → IsInt64 z
    → let t = from_ticks z in IsParted z (days t) (hours t) (minutes t) (seconds t) (milliseconds t)
parts-IsParted z h =
    let d = days-Sides z h in
    let ho = hours-Sides z h in
    let mi = minutes-Sides z h in
    let se = seconds-Sides z h in
    let ms = milliseconds-Sides z h in
    record {
      positive = omega (arith, d.0, ho.0, mi.0, se.0, ms.0);
      negative = omega (arith, d.1, ho.1, mi.1, se.1, ms.1);
      hours_in = omega (arith, ho);
      minutes_in = omega (arith, mi);
      seconds_in = omega (arith, se);
      milliseconds_in = omega (arith, ms);
    }

-- The exact number of milliseconds that five 32-bit arguments stand for.
abbrev pub exact_milliseconds : ℤ → ℤ → ℤ → ℤ → ℤ → ℤ
exact_milliseconds d h m s ms =
    scale_ℤ (scale_ℤ d 86400 +ℤ scale_ℤ h 3600 +ℤ scale_ℤ m 60 +ℤ s) 1000 +ℤ ms

i64_of : (z : ℤ) → (pos_part z < 2 ^ 62) × (neg_part z < 2 ^ 62) → i64 z ≡ z
i64_of z h = ground arith

abbrev pub InMilliseconds : ℤ → Type 0
InMilliseconds z = (min_milliseconds ≤ℤ z) × (z ≤ℤ max_milliseconds)

InMilliseconds-or : (z : ℤ) → InMilliseconds z ⊎ (¬ InMilliseconds z)
InMilliseconds-or z = ground arith

outside_test : ℤ → Bool
outside_test z = ltb_ℤ max_milliseconds z || ltb_ℤ z min_milliseconds

outside_test_iff :
    (z : ℤ)
    → (InMilliseconds z → outside_test z ≡ false) × (¬ InMilliseconds z → outside_test z ≡ true)
unfolding outside_test
outside_test_iff z = (λ h. ground arith, λ h. ground arith)

ticks_of :
    (z : ℤ)
    → InMilliseconds z
    → i64 (scale_ℤ z ticks_per_millisecond) ≡ scale_ℤ z ticks_per_millisecond
ticks_of z h = i64_lem (scale_ℤ z ticks_per_millisecond) (omega int_bounds)

module _ (d h m s ms : ℤ) (hd : IsInt32 d) (hh : IsInt32 h) (hm : IsInt32 m) (hs : IsInt32 s)
    (hms : IsInt32 ms) where
  exact_seconds : ℤ
  exact_seconds = scale_ℤ d 86400 +ℤ scale_ℤ h 3600 +ℤ scale_ℤ m 60 +ℤ s

  seconds_fit : i64 exact_seconds ≡ exact_seconds
  unfolding exact_seconds
  seconds_fit = i64_of exact_seconds (
      omega (
        int_bounds,
        IsInt32-parts d hd,
        IsInt32-parts h hh,
        IsInt32-parts m hm,
        IsInt32-parts s hs,
      ))

  milliseconds_fit : i64 (scale_ℤ exact_seconds 1000 +ℤ ms) ≡ scale_ℤ exact_seconds 1000 +ℤ ms
  unfolding exact_seconds
  milliseconds_fit = i64_of (scale_ℤ exact_seconds 1000 +ℤ ms) (
      omega (
        int_bounds,
        IsInt32-parts d hd,
        IsInt32-parts h hh,
        IsInt32-parts m hm,
        IsInt32-parts s hs,
        IsInt32-parts ms hms,
      ))

  -- For int32_t arguments the constructor of days, hours, minutes, seconds and milliseconds
  -- returns the exact time span if its milliseconds lie within the bounds of the file, and throws
  -- `out_of_range` if they do not.
  pub from_days_time_milliseconds_exact :
      let total = exact_milliseconds d h m s ms in
      ByCases
        (InMilliseconds total)
        (ok (from_ticks (scale_ℤ total ticks_per_millisecond)))
        (throws out_of_range)
        (from_days_time_milliseconds d h m s ms)
  unfolding from_days_time_milliseconds outside_test exact_seconds
  from_days_time_milliseconds_exact =
      let total = exact_milliseconds d h m s ms in
      let test = outside_test_iff total in
      ByCases-of _ (InMilliseconds-or total)
        (λ fits. rw (seconds_fit, milliseconds_fit, ticks_of total fits) (rw (test.0 fits)))
        (λ over. rw (seconds_fit, milliseconds_fit) (rw (test.1 over)))
