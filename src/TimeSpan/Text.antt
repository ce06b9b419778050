-- ===== src/TimeSpan/Text.antt =====
-- The numbers that `ToString` prints.
use nuke.Base.{ℕ, ◌-◌, ◌*◌, ◌/◌, ◌%◌, ◌^◌, ◌≤◌, ◌<◌, ◌≡◌, arith}
use nuke.Base.Int.{pos, ◌-ℤ◌, scale_ℤ, quot_ℤ}
use nuke.Base.Word.{i32, i64}
use nuke.TimeSpan.Floating.{to_string_parts}

i32_pos : (n : ℕ) → n < 2 ^ 31 → i32 (pos n) ≡ pos n
i32_pos n h = ground arith

i64_pos : (n : ℕ) → n < 2 ^ 31 → i64 (pos n) ≡ pos n
i64_pos n h = ground arith

quot_pos : (n k : ℕ) → quot_ℤ (pos n) k ≡ pos (n / k)
quot_pos n k = ground arith

scale_pos : (n k : ℕ) → scale_ℤ (pos n) k ≡ pos (n * k)
unfolding scale_ℤ
scale_pos n k = ground arith

sub_pos : (a b : ℕ) → b ≤ a → pos a -ℤ pos b ≡ pos (a - b)
unfolding ◌-ℤ◌
sub_pos a b h = ground arith

-- One step of the division: the quotient, and what is left after the 32-bit product is taken away.
division : (n k : ℕ) → 0 < k → (n / k ≤ n) × (n / k * k ≤ n) × (n - n / k * k ≡ n % k)
division n k h = (grind arith, omega arith, omega arith)

step :
    (n k : ℕ)
    → n < 2 ^ 31
    → 0 < k
    → (i32 (quot_ℤ (pos n) k) ≡ pos (n / k))
      × (pos n -ℤ i32 (scale_ℤ (pos (n / k)) k) ≡ pos (n % k))
step n k h pos_k =
    let d = division n k pos_k in
    (
      rw (quot_pos n k, i32_pos (n / k) (omega (arith, d.0))),
      rw (
        scale_pos (n / k) k,
        i32_pos (n / k * k) (omega (arith, d.1)),
        sub_pos n (n / k * k) d.1,
        d.2,
      ),
    )

-- For a time span that is not negative and below 2 ^ 31 milliseconds the four numbers are the hours,
-- minutes, seconds and milliseconds of it.
pub to_string_parts_lem :
    (n : ℕ)
    → n < 2 ^ 31
    → to_string_parts (pos n) ≡ record {
      hour = pos (n / 3600000);
      minute = pos (n % 3600000 / 60000);
      second = pos (n % 60000 / 1000);
      ms = pos (n % 1000);
    }
unfolding to_string_parts
to_string_parts_lem n h =
    let hours = step n 3600000 h (omega arith) in
    let minutes = step (n % 3600000) 60000 (omega arith) (omega arith) in
    let seconds = step (n % 3600000 % 60000) 1000 (omega arith) (omega arith) in
    rw
      (
        hours.0,
        hours.1,
        i64_pos (n % 3600000) (omega arith),
        minutes.0,
        minutes.1,
        i64_pos (n % 3600000 % 60000) (omega arith),
        seconds.0,
        seconds.1,
        i32_pos (n % 3600000 % 60000 % 1000) (omega arith),
      )
      (ground arith)
