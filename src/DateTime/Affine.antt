-- ===== src/DateTime/Affine.antt =====
-- The Euclidean affine functions of `GetDate`, `Year` and their kin: they split a day count into a
-- century, a year and a day of the year by multiplications and divisions.
use nuke.Base.{ℕ, suc, ◌+◌, ◌-◌, ◌*◌, ◌/◌, ◌%◌, ◌^◌, ◌≤◌, ◌<◌, ◌≡◌, ◌⊎◌, arith, if◌then◌else◌}
use nuke.Base.Bits.{bit_or_three}
use nuke.Base.Int.{◌*ℤ◌}
use nuke.Numeric.{big_mul}
use nuke.DateTime.Gregorian.{is_leap}
use nuke.DateTime.Fields.{century_product, day_since_march1}

-- A day of year `y` (counted from 0): `a` whole periods of 400 years, `b` of 100, `c` of 4 and `e`
-- years come before it.
record Split (a b c e s : ℕ) : Type 0 where
  b_to : b ≤ 3
  c_to : c ≤ 24
  e_to : e ≤ 3
  s_to : s ≤ 365
  s_last : (s < 365) ⊎ ((e ≡ 3) × ((c < 24) ⊎ (b ≡ 3)))

abbrev days_of : ℕ → ℕ → ℕ → ℕ → ℕ → ℕ
days_of a b c e s = 146097 * a + 36524 * b + 1461 * c + 365 * e + s

abbrev century_day : ℕ → ℕ → ℕ → ℕ
century_day c e s = 1461 * c + 365 * e + s

Split-century :
    (a b c e s : ℕ)
    → Split a b c e s
    → ((4 * days_of a b c e s + 3) / 146097 ≡ 4 * a + b)
      × ((4 * days_of a b c e s + 3) % 146097 ≡ 4 * century_day c e s + 3 - b)
Split-century a b c e s h = ground arith

Split-year :
    (a b c e s : ℕ)
    → Split a b c e s
    → ((4 * century_day c e s + 3) / 1461 ≡ 4 * c + e)
      × ((4 * century_day c e s + 3) % 1461 / 4 ≡ s)
Split-year a b c e s h = ground arith

-- What the code computes from a day count, at the year and the day of the year that it has.
pub record IsSplit (y s n : ℕ) : Type 0 where
  pub century : (4 * n + 3) / 146097 ≡ y / 100
  pub year_in_century : ((4 * n + 3) % 146097 / 4 * 4 + 3) / 1461 ≡ y % 100
  pub day_in_year : ((4 * n + 3) % 146097 / 4 * 4 + 3) % 1461 / 4 ≡ s

-- A common year has no day 365, so day 365 closes a period of 4 years, and of 100 if it is the last.
Split-of :
    (y s : ℕ)
    → s < (if is_leap (suc y) then 366 else 365)
    → Split (y / 400) (y % 400 / 100) (y % 100 / 4) (y % 4) s
unfolding is_leap
Split-of y s h = record {
  b_to = omega arith;
  c_to = omega arith;
  e_to = omega arith;
  s_to = ground arith;
  s_last = ground arith;
}

pub IsSplit-day :
    (y s n : ℕ)
    → n + y / 100 ≡ 365 * y + y / 4 + y / 400 + s
    → s < (if is_leap (suc y) then 366 else 365)
    → IsSplit y s n
IsSplit-day y s n e h =
    let n_is : n ≡ days_of (y / 400) (y % 400 / 100) (y % 100 / 4) (y % 4) s = omega arith in
    let parts = Split-of y s h in
    let (century_is, rest_is) = Split-century _ _ _ _ s parts in
    let (year_is, day_is) = Split-year _ _ _ _ s parts in
    let rounded : (4 * n + 3) % 146097 / 4 * 4 + 3 ≡ 4 * century_day (y % 100 / 4) (y % 4) s + 3 =
      omega (arith, rw (← n_is) at rest_is) in
    record {
      century = omega (arith, rw (← n_is) at century_is);
      year_in_century = rw rounded (omega (arith, year_is));
      day_in_year = rw rounded day_is;
    }

-- The multiplication by `EafMultiplier` stands in for a division by 1461.
pub century_product_split :
    (r : ℕ)
    → r < 146097
    → (century_product r / 2 ^ 32 ≡ (r / 4 * 4 + 3) / 1461)
      × (day_since_march1 (century_product r) ≡ (r / 4 * 4 + 3) % 1461 / 4)
unfolding century_product day_since_march1 big_mul ◌*ℤ◌
century_product_split r h = ground (arith, bit_or_three r)
