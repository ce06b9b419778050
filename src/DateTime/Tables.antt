-- ===== src/DateTime/Tables.antt =====
-- The month tables against the lengths of the months. Each fact is checked at every index.
use nuke.Base.{
  ℕ, zero, suc, ◌+◌, ◌-◌, ◌≤◌, ◌<◌, ◌≡◌, refl, Bool, true, false, arith, leb, ◌&&◌, ◌==◌,
  if◌then◌else◌, get_or,
}
use nuke.DateTime.Gregorian.{month_length, months_length}
use nuke.DateTime.Calendar.{days_to_month, days_in_month365, days_in_month366}

abbrev pub all_below : ℕ → (ℕ → Bool) → Bool
all_below zero p = true
all_below (suc n) p = p n && all_below n p

pub all_below-lt : (n : ℕ) (p : ℕ → Bool) (i : ℕ) → all_below n p ≡ true → i < n → p i ≡ true
all_below-lt zero p i h lt = absurd (omega arith)
all_below-lt (suc n) p i h lt = ground (arith, all_below-lt n p i)

table_test : Bool → ℕ → Bool
table_test leap i = days_to_month leap i == months_length leap i

table_checked : (leap : Bool) → all_below 13 (table_test leap) ≡ true
unfolding table_test days_to_month
table_checked true = refl
table_checked false = refl

-- Entry `i` of the table is the number of days of the first `i` months.
pub days_to_month-months_length :
    (leap : Bool) (i : ℕ) → i ≤ 12 → days_to_month leap i ≡ months_length leap i
days_to_month-months_length leap i h =
    unfold table_test in ground (arith, all_below-lt 13 (table_test leap) i (table_checked leap))

length_test : Bool → ℕ → Bool
length_test leap i =
    (leb (months_length leap (suc i)) (if leap then 366 else 365))
    && (get_or (if leap then days_in_month366 else days_in_month365) i 0
        == month_length leap (suc i))
    && (months_length leap (suc i) == months_length leap i + month_length leap (suc i))

length_checked : (leap : Bool) → all_below 12 (length_test leap) ≡ true
unfolding length_test
length_checked true = refl
length_checked false = refl

-- A month lies within its year, and the second pair of tables has its length.
pub months_length_within :
    (leap : Bool) (m : ℕ)
    → 1 ≤ m
    → m ≤ 12
    → (months_length leap (m - 1) + month_length leap m ≤ (if leap then 366 else 365))
      × (months_length leap m ≡ months_length leap (m - 1) + month_length leap m)
      × (get_or (if leap then days_in_month366 else days_in_month365) (m - 1) 0
          ≡ month_length leap m)
months_length_within leap zero h k = absurd (omega arith)
months_length_within leap (suc i) h k =
    let e : suc i - 1 ≡ i = omega arith in
    rw e (
      unfold length_test in
      ground (arith, all_below-lt 12 (length_test leap) i (length_checked leap)))
