-- ===== src/DateTime/Landing.antt =====
-- The ends of `AddMonths` and `AddYears`: the day number of the day that they land on, and the value
-- with that day and the old time of day.
use nuke.Base.{ℕ, ◌+◌, ◌-◌, ◌*◌, ◌%◌, ◌^◌, ◌≤◌, ◌<◌, ◌≡◌, arith, min, Bool}
use nuke.Base.Int.{pos, ◌-ℤ◌}
use nuke.Base.Bits.{bit_or-zero}
use nuke.Base.Result.{ok}
use nuke.DateTime.Gregorian.{is_leap, month_length, months_length, day_number, IsDate}
use nuke.DateTime.Tables.{days_to_month-months_length, months_length_within}
use nuke.DateTime.Leap.{days_to_year-years_length, years_length_closed}
use nuke.DateTime.Calendar.{ticks_per_day, days_to_month}
use nuke.DateTime.Value.{DateTime, from_data, u_ticks}
use nuke.DateTime.Parts.{u_ticks-mod}
use nuke.DateTime.KindLoss.{Unspecified, Unspecified-parts, from_u64_small}
use nuke.DateTime.Shift.{on_day, cut_day_number, kept_day_number}

-- `on_day` keeps the time of day.
pub on_day_lem :
    (t : DateTime) (n : ℕ)
    → Unspecified t
    → n < 3652059
    → on_day t n ≡ ok (from_data (n * ticks_per_day + t.date_data % ticks_per_day))
unfolding on_day
on_day_lem t n h k =
    let time : u_ticks t % ticks_per_day ≡ t.date_data % ticks_per_day =
      omega (arith, u_ticks-mod t) in
    let sum : (n * ticks_per_day % 2 ^ 64 + t.date_data % ticks_per_day) % 2 ^ 64
        ≡ n * ticks_per_day + t.date_data % ticks_per_day =
      omega arith in
    rw ((Unspecified-parts t h).0, bit_or-zero, time, sum) (from_u64_small _ (omega arith))

-- A month and a day that is cut to its length, as `shift_months` finds them in the tables.
pub record IsCut (y m d : ℕ) : Type 0 where
  pub before : days_to_month (is_leap y) (m - 1) ≡ months_length (is_leap y) (m - 1)
  pub days :
      days_to_month (is_leap y) m ≡ months_length (is_leap y) (m - 1) + month_length (is_leap y) m
  pub valid : IsDate y m (min d (month_length (is_leap y) m))

pub month_length_pos :
    (leap : Bool) (m : ℕ) → (1 ≤ month_length leap m) × (month_length leap m ≤ 31)
month_length_pos leap m = ground arith

pub IsCut-of : (y m d : ℕ) → 1 ≤ y → y ≤ 9999 → 1 ≤ m → m ≤ 12 → 1 ≤ d → IsCut y m d
IsCut-of y m d hy ky hm km hd =
    let table = months_length_within (is_leap y) m hm km in
    let positive = month_length_pos (is_leap y) m in
    record {
      before = days_to_month-months_length (is_leap y) (m - 1) (omega arith);
      days = omega (arith, table.1, days_to_month-months_length (is_leap y) m km);
      valid = record {
        year_from = hy;
        year_to = ky;
        month_from = hm;
        month_to = km;
        day_from = omega (arith, positive);
        day_to = omega arith;
      };
    }

pub cut_day_number_lem :
    (y m d : ℕ)
    → IsDate y m (min d (month_length (is_leap y) m))
    → IsCut y m d
    → d ≤ 31
    → cut_day_number (is_leap y) (pos y) (pos m) (pos d)
      ≡ day_number y m (min d (month_length (is_leap y) m))
unfolding cut_day_number day_number
cut_day_number_lem y m d v cut hd =
    let lengths = month_length_pos (is_leap y) m in
    ground (
      arith,
      cut.before,
      cut.days,
      lengths,
      v.day_from,
      v.year_from,
      v.year_to,
      days_to_year-years_length y v.year_from v.year_to,
      years_length_closed (y - 1),
      days_to_month-months_length (is_leap y) (m - 1),
      months_length_within (is_leap y) m v.month_from v.month_to,
    )

pub kept_day_number_lem :
    (y y' m d : ℕ)
    → IsDate y m d
    → IsDate y' m (min d (month_length (is_leap y') m))
    → kept_day_number (is_leap y') (pos y') (pos (m - 1)) (pos (d - 1))
      ≡ day_number y' m (min d (month_length (is_leap y') m))
unfolding kept_day_number day_number ◌-ℤ◌
kept_day_number_lem y y' m d v v' = ground (
  arith,
  days_to_year-years_length y' v'.year_from v'.year_to,
  years_length_closed (y' - 1),
  days_to_month-months_length (is_leap y') (m - 1),
  months_length_within (is_leap y') m v.month_from v.month_to,
)
