-- ===== src/DateTime/March.antt =====
-- The year of `GetDate`, `Month` and `Day` begins on March 1st, so that a leap day is its last. The
-- formula for month and day is checked on each day of such a year.
use nuke.Base.{
  ℕ, zero, suc, ◌+◌, ◌-◌, ◌/◌, ◌^◌, ◌≤◌, ◌<◌, ◌≡◌, refl, Bool, true, false, arith, ltb, leb, not,
  ◌&&◌, ◌||◌, ◌==◌, if◌then◌else◌, Bool-cases, inl, inr,
}
use nuke.Base.Word.{u16}
use nuke.DateTime.Gregorian.{is_leap, month_length, months_length, years_length, day_number, IsDate}
use nuke.DateTime.Leap.{years_length_closed}
use nuke.DateTime.Tables.{all_below, all_below-lt}
use nuke.DateTime.Affine.{IsSplit, IsSplit-day}
use nuke.DateTime.Fields.{month_and_day}

-- The day of a year that begins on March 1st.
unfoldable pub march_day : Bool → ℕ → ℕ → ℕ
march_day leap m d =
    let in_year = months_length leap (m - 1) + (d - 1) in
    if leb 3 m then in_year - (if leap then 60 else 59) else in_year + 306

-- The year, counted from 0, that begins on March 1st.
unfoldable pub march_year : ℕ → ℕ → ℕ
march_year y m = if leb 3 m then y else y - 1

pub record IsMarch (m d s : ℕ) : Type 0 where
  pub month_is : u16 (month_and_day s / 2 ^ 16) ≡ (if leb 3 m then m else m + 12)
  pub day_is : u16 (month_and_day s) / 2141 + 1 ≡ d
  pub late : leb 306 s ≡ not (leb 3 m)
  pub within : s ≤ (if leb 3 m then 305 else 365)

march_test : Bool → ℕ → ℕ → Bool
march_test leap i j =
    let s = march_day leap (suc i) (suc j) in
    not (ltb j (month_length leap (suc i)))
    || ((u16 (month_and_day s / 2 ^ 16) == (if leb 3 (suc i) then suc i else suc i + 12))
        && (u16 (month_and_day s) / 2141 == j)
        && (if leb 3 (suc i) then not (leb 306 s) else leb 306 s)
        && leb s (if leb 3 (suc i) then 305 else 365))

march_checked : (leap : Bool) → all_below 12 (λ i. all_below 31 (march_test leap i)) ≡ true
unfolding march_test march_day month_and_day
march_checked true = refl
march_checked false = refl

pub month_length-le : (leap : Bool) (m : ℕ) → month_length leap m ≤ 31
month_length-le leap m = ground arith

march_test_holds :
    (leap : Bool) (i j : ℕ) → i < 12 → j < month_length leap (suc i) → march_test leap i j ≡ true
march_test_holds leap i j hi hj =
    all_below-lt 31 (march_test leap i) j
      (all_below-lt 12 (λ k. all_below 31 (march_test leap k)) i (march_checked leap) hi)
      (omega (arith, month_length-le leap (suc i)))

IsMarch-suc :
    (leap : Bool) (i j : ℕ)
    → i < 12
    → j < month_length leap (suc i)
    → IsMarch (suc i) (suc j) (march_day leap (suc i) (suc j))
IsMarch-suc leap i j hi hj = unfold march_test in ground (arith, march_test_holds leap i j hi hj)

pub march_day-IsMarch :
    (leap : Bool) (m d : ℕ)
    → 1 ≤ m
    → m ≤ 12
    → 1 ≤ d
    → d ≤ month_length leap m
    → IsMarch m d (march_day leap m d)
march_day-IsMarch leap zero d hm km hd kd = absurd (omega arith)
march_day-IsMarch leap (suc i) zero hm km hd kd = absurd (omega arith)
march_day-IsMarch leap (suc i) (suc j) hm km hd kd = IsMarch-suc leap i j (omega arith) kd

-- The first two months have 59 days, or 60 in a leap year.
months_length_from :
    (leap : Bool) (i : ℕ) → (if leap then 60 else 59) ≤ months_length leap (suc (suc i))
months_length_from true zero = omega arith
months_length_from false zero = omega arith
months_length_from leap (suc i) = omega (arith, months_length_from leap i)

from_march :
    (leap : Bool) (m d : ℕ)
    → 3 ≤ m
    → march_day leap m d + (if leap then 60 else 59) ≡ months_length leap (m - 1) + (d - 1)
unfolding march_day
from_march leap zero d h = absurd (omega arith)
from_march leap (suc zero) d h = absurd (omega arith)
from_march leap (suc (suc zero)) d h = absurd (omega arith)
from_march leap (suc (suc (suc i))) d h = ground (arith, months_length_from leap i)

before_march :
    (leap : Bool) (m d : ℕ)
    → m < 3
    → march_day leap m d ≡ months_length leap (m - 1) + (d - 1) + 306
unfolding march_day
before_march leap m d h = ground arith

years_length-pred :
    (y : ℕ) → 1 ≤ y → years_length y ≡ years_length (y - 1) + (if is_leap y then 366 else 365)
unfolding years_length
years_length-pred zero h = absurd (omega arith)
years_length-pred (suc y) h = let e : suc y - 1 ≡ y = omega arith in rw e

early_within :
    (leap : Bool) (m d : ℕ)
    → 1 ≤ m
    → m < 3
    → d ≤ month_length leap m
    → 1 ≤ d
    → months_length leap (m - 1) + (d - 1) + 306 < (if leap then 366 else 365)
early_within leap zero d h k fits from = absurd (omega arith)
early_within leap (suc zero) d h k fits from = ground arith
early_within leap (suc (suc zero)) d h k fits from = ground arith
early_within leap (suc (suc (suc m))) d h k fits from = absurd (omega arith)

march-IsSplit_late :
    (y m d : ℕ)
    → IsDate y m d
    → 3 ≤ m
    → IsSplit y (march_day (is_leap y) m d) (day_number y m d + 306)
unfolding day_number
march-IsSplit_late y m d v h =
    let march = march_day-IsMarch (is_leap y) m d v.month_from v.month_to v.day_from v.day_to in
    IsSplit-day y (march_day (is_leap y) m d) (day_number y m d + 306)
      (ground (
        arith,
        years_length_closed y,
        years_length-pred y v.year_from,
        from_march (is_leap y) m d h,
      ))
      (ground (arith, march.within))

march-IsSplit_early :
    (y m d : ℕ)
    → IsDate y m d
    → m < 3
    → IsSplit (y - 1) (march_day (is_leap y) m d) (day_number y m d + 306)
unfolding day_number
march-IsSplit_early y m d v h =
    let march = march_day-IsMarch (is_leap y) m d v.month_from v.month_to v.day_from v.day_to in
    let next : suc (y - 1) ≡ y = omega (arith, v.year_from) in
    IsSplit-day (y - 1) (march_day (is_leap y) m d) (day_number y m d + 306)
      (omega (arith, years_length_closed (y - 1), before_march (is_leap y) m d h))
      (rw (next, before_march (is_leap y) m d h)
        (early_within (is_leap y) m d v.month_from h v.day_to v.day_from))

-- Counted from March 1st of the year 0, a date is day `march_day` of year `march_year`.
pub march-IsSplit :
    (y m d : ℕ)
    → IsDate y m d
    → IsSplit (march_year y m) (march_day (is_leap y) m d) (day_number y m d + 306)
unfolding march_year
march-IsSplit y m d v = elim (Bool-cases (leb 3 m)) [
  | inl late ↦ rw late (march-IsSplit_late y m d v (ground arith))
  | inr early ↦ rw early (march-IsSplit_early y m d v (ground arith))
]
