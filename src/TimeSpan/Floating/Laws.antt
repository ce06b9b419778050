-- ===== src/TimeSpan/Floating/Laws.antt =====
-- The operations through `double` at whole numbers that a double holds.
use nuke.Base.{ℕ, ◌*◌, ◌≤◌, ◌≡◌, arith}
use nuke.Base.Int.{ℤ, pos, negsuc, pos_part, neg_part, ◌*ℤ◌}
use nuke.Base.Result.{ok}
use nuke.Base.Floating.{Floating, IsExact, IsWhole}
use nuke.TimeSpan.{
  from_ticks, ticks_per_millisecond, ticks_per_second, ticks_per_minute, ticks_per_hour,
  ticks_per_day,
}
use nuke.TimeSpan.Floating.{
  interval_from_double_ticks, interval, from_days, from_hours, from_minutes, from_seconds,
  from_milliseconds, multiply,
}

*ℤ_sides :
    (n : ℤ) (k : ℕ)
    → (pos_part (n *ℤ pos k) ≡ pos_part n * k) × (neg_part (n *ℤ pos k) ≡ neg_part n * k)
unfolding ◌*ℤ◌
*ℤ_sides (pos n) k = (grind arith, grind arith)
*ℤ_sides (negsuc n) k = (grind arith, grind arith)

mul_within : (a k b : ℕ) → 1 ≤ k → k ≤ b → (a ≤ a * b) × (a * k ≤ a * b)
mul_within a k b h le = (grind arith, grind arith)

-- A smaller unit has a smaller product.
IsWhole-of_product :
    (n : ℤ) (k : ℕ)
    → k ≤ ticks_per_day
    → 1 ≤ k
    → IsWhole (n *ℤ pos ticks_per_day)
    → IsWhole n × IsWhole (n *ℤ pos k)
IsWhole-of_product n k hk pos_k h =
    let day = *ℤ_sides n ticks_per_day in
    let unit = *ℤ_sides n k in
    let positive = mul_within (pos_part n) k ticks_per_day pos_k hk in
    let negative = mul_within (neg_part n) k ticks_per_day pos_k hk in
    (omega (arith, day, positive, negative), omega (arith, day, unit, positive, negative))

module _ (F : Floating) (exact : IsExact F) where
  interval_from_double_ticks_whole :
      (n : ℤ) → IsWhole n → interval_from_double_ticks F (F.of_int n) ≡ ok (from_ticks n)
  unfolding interval_from_double_ticks
  interval_from_double_ticks_whole n h = rw (
    exact.below_end n h,
    exact.above_end n h,
    exact.is_number n,
    exact.not_end n h,
    exact.whole n h,
  )

  interval_whole :
      (n : ℤ) (k : ℕ)
      → IsWhole n
      → k ≤ ticks_per_day
      → IsWhole (n *ℤ pos k)
      → interval F (F.of_int n) (F.of_int (pos k)) ≡ ok (from_ticks (n *ℤ pos k))
  unfolding interval
  interval_whole n k h hk fits =
      rw (exact.is_number n, exact.product n (pos k) h (omega arith) fits)
        (interval_from_double_ticks_whole (n *ℤ pos k) fits)

  -- With a `double` type that is exact on whole numbers, `FromDays`, `FromHours`, `FromMinutes`,
  -- `FromSeconds` and `FromMilliseconds` of a whole number give the exact ticks, if the ticks of
  -- that many days are small enough for a double to hold.
  pub from_units_whole :
      (n : ℤ)
      → IsWhole (n *ℤ pos ticks_per_day)
      → (from_days F (F.of_int n) ≡ ok (from_ticks (n *ℤ pos ticks_per_day)))
        × (from_hours F (F.of_int n) ≡ ok (from_ticks (n *ℤ pos ticks_per_hour)))
        × (from_minutes F (F.of_int n) ≡ ok (from_ticks (n *ℤ pos ticks_per_minute)))
        × (from_seconds F (F.of_int n) ≡ ok (from_ticks (n *ℤ pos ticks_per_second)))
        × (from_milliseconds F (F.of_int n) ≡ ok (from_ticks (n *ℤ pos ticks_per_millisecond)))
  unfolding from_days from_hours from_minutes from_seconds from_milliseconds
  from_units_whole n h =
      let unit = λ (k : ℕ) (hk : k ≤ ticks_per_day) (pos_k : 1 ≤ k).
        interval_whole n k (IsWhole-of_product n k hk pos_k h).0 hk
          (IsWhole-of_product n k hk pos_k h).1 in
      (
        unit ticks_per_day (omega arith) (omega arith),
        unit ticks_per_hour (omega arith) (omega arith),
        unit ticks_per_minute (omega arith) (omega arith),
        unit ticks_per_second (omega arith) (omega arith),
        unit ticks_per_millisecond (omega arith) (omega arith),
      )

  -- With a `double` type that is exact on whole numbers, a time span times a whole number is the
  -- exact product, if ticks, factor and product are small enough for a double to hold.
  pub multiply_whole :
      (n factor : ℤ)
      → IsWhole n
      → IsWhole factor
      → IsWhole (n *ℤ factor)
      → multiply F (from_ticks n) (F.of_int factor) ≡ ok (from_ticks (n *ℤ factor))
  unfolding multiply
  multiply_whole n factor h k fits =
      rw (exact.is_number factor, exact.product n factor h k fits, exact.rounded (n *ℤ factor) fits)
        (interval_from_double_ticks_whole (n *ℤ factor) fits)
