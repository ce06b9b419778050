-- ===== src/TimeSpan/Tests.antt =====
-- Runs of the functions of `TimeSpan`, and its theorems at concrete values.
use nuke.Base.{◌+◌, ◌-◌, ◌^◌, ◌≡◌, refl, arith, [], ◌∷◌}
use nuke.Base.Floating.{exact}
use nuke.TimeSpan.Printing.{to_string}
use nuke.TimeSpan.Floating.{total_milliseconds, to_string_parts}
use nuke.Base.Int.{pos, negsuc, ◌+ℤ◌, ◌-ℤ◌, scale_ℤ}
use nuke.Base.Result.{ok, throws, out_of_range, overflow_error, ByCases}
use nuke.TimeSpan.{
  from_ticks, min_value, max_value, int64_min, time_to_ticks, from_time,
  from_days_time_milliseconds, get_hash_code, days, hours, minutes, seconds, milliseconds, add,
  subtract, duration, negate, ticks_per_millisecond,
}
use nuke.TimeSpan.Overflow.{arithmetic-Checked, Checked, magnitude}
use nuke.TimeSpan.Parts.{
  IsParted, parts-IsParted, InMilliseconds, exact_milliseconds, from_days_time_milliseconds_exact,
}

runs :
    (add max_value (from_ticks (pos 1)) ≡ throws overflow_error)
    × (negate min_value ≡ throws overflow_error)
    × (from_time (pos 1) (pos 2) (negsuc 2) ≡ ok (from_ticks (pos 37170000000)))
    × (days (from_ticks (negsuc 863999999999)) ≡ negsuc 0)
    × (get_hash_code (from_ticks (pos (2 ^ 32 + 5))) ≡ pos 4)
unfolding add negate from_time time_to_ticks days get_hash_code scale_ℤ ◌+ℤ◌
runs = (refl, refl, refl, refl, refl)

parts-IsParted_example :
    let t = min_value in
    IsParted int64_min (days t) (hours t) (minutes t) (seconds t) (milliseconds t)
parts-IsParted_example = parts-IsParted int64_min (omega arith)

from_days_time_milliseconds_exact_example :
    let total = exact_milliseconds (pos 1) (negsuc 0) (pos 30) (pos 0) (negsuc 499) in
    ByCases
      (InMilliseconds total)
      (ok (from_ticks (scale_ℤ total ticks_per_millisecond)))
      (throws out_of_range)
      (from_days_time_milliseconds (pos 1) (negsuc 0) (pos 30) (pos 0) (negsuc 499))
from_days_time_milliseconds_exact_example =
    from_days_time_milliseconds_exact (pos 1) (negsuc 0) (pos 30) (pos 0) (negsuc 499) (omega arith)
      (omega arith) (omega arith) (omega arith) (omega arith)

-- The least value, and 1.
arithmetic-Checked_example :
    Checked (int64_min +ℤ pos 1) (add (from_ticks int64_min) (from_ticks (pos 1)))
    × Checked (int64_min -ℤ pos 1) (subtract (from_ticks int64_min) (from_ticks (pos 1)))
    × Checked (magnitude int64_min) (duration (from_ticks int64_min))
arithmetic-Checked_example = arithmetic-Checked int64_min (pos 1) (omega arith) (omega arith)

-- A bit more than an hour, backwards: each number has the sign.
printed_backwards :
    to_string exact (from_ticks (negsuc (37230040000 - 1)))
    ≡ b'-' ∷ b'1' ∷ b':' ∷ b'-' ∷ b'2' ∷ b':' ∷ b'-' ∷ b'3' ∷ b',' ∷ b'-' ∷ b'4' ∷ []
unfolding to_string total_milliseconds to_string_parts nuke.Base.Text.decimal
    nuke.Base.Text.digits_at nuke.Base.Int.scale_ℤ nuke.Base.Int.◌-ℤ◌
printed_backwards = refl
