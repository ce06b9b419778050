-- ===== src/TimeSpan.antt =====
-- System/TimeSpan.cpp and System/TimeSpan.h: the operations on whole ticks. Those that go through
-- `double` are in `Floating`.
pub mod Floating
pub mod Overflow
pub mod Parts
pub mod Text
pub mod Printing
mod Tests
use nuke.Base.{
  ℕ, ◌+◌, ◌-◌, ◌*◌, ◌/◌, ◌%◌, ◌^◌, Bool, true, false, not, ◌&&◌, ◌||◌, if◌then◌else◌, bit_xor,
}
use nuke.Base.Int.{ℤ, pos, negsuc, ◌+ℤ◌, ◌-ℤ◌, neg_ℤ, scale_ℤ, ltb_ℤ, eqb_ℤ, quot_ℤ, rem_ℤ}
use nuke.Base.Word.{u32, to_u64, of_u32, i32, i64}
use nuke.Base.Result.{Result, ok, out_of_range, overflow_error, ◌>>=◌, ◌>>◌, throw_if}

abbrev pub ticks_per_millisecond : ℕ
ticks_per_millisecond = 10000

abbrev pub ticks_per_second : ℕ
ticks_per_second = ticks_per_millisecond * 1000

abbrev pub ticks_per_minute : ℕ
ticks_per_minute = ticks_per_second * 60

abbrev pub ticks_per_hour : ℕ
ticks_per_hour = ticks_per_minute * 60

abbrev pub ticks_per_day : ℕ
ticks_per_day = ticks_per_hour * 24

abbrev pub int64_max : ℤ
int64_max = pos (2 ^ 63 - 1)

abbrev pub int64_min : ℤ
int64_min = negsuc (2 ^ 63 - 1)

abbrev max_seconds : ℤ
max_seconds = quot_ℤ int64_max ticks_per_second

abbrev min_seconds : ℤ
min_seconds = quot_ℤ int64_min ticks_per_second

abbrev pub max_milliseconds : ℤ
max_milliseconds = quot_ℤ int64_max ticks_per_millisecond

abbrev pub min_milliseconds : ℤ
min_milliseconds = quot_ℤ int64_min ticks_per_millisecond

-- The member `_ticks`, an int64_t.
pub record TimeSpan : Type 0 where
  pub ticks : ℤ

-- TimeSpan(int64_t) and FromTicks
abbrev pub from_ticks : ℤ → TimeSpan
from_ticks n = record { ticks = n }

abbrev pub zero_span : TimeSpan
zero_span = from_ticks (pos 0)

abbrev pub max_value : TimeSpan
max_value = from_ticks int64_max

abbrev pub min_value : TimeSpan
min_value = from_ticks int64_min

unfoldable pub time_to_ticks : ℤ → ℤ → ℤ → Result ℤ
time_to_ticks hour minute second = do
  let total_seconds = i64 (scale_ℤ hour 3600 +ℤ scale_ℤ minute 60 +ℤ second)
  throw_if (ltb_ℤ max_seconds total_seconds || ltb_ℤ total_seconds min_seconds) out_of_range
  ok (i64 (scale_ℤ total_seconds ticks_per_second))

-- TimeSpan(hours, minutes, seconds)
unfoldable pub from_time : ℤ → ℤ → ℤ → Result TimeSpan
from_time hours minutes seconds = do
  ticks ← time_to_ticks hours minutes seconds
  ok (from_ticks ticks)

-- TimeSpan(days, hours, minutes, seconds, milliseconds)
unfoldable pub from_days_time_milliseconds : ℤ → ℤ → ℤ → ℤ → ℤ → Result TimeSpan
from_days_time_milliseconds days hours minutes seconds milliseconds = do
  let total_seconds =
      i64 (scale_ℤ days (3600 * 24) +ℤ scale_ℤ hours 3600 +ℤ scale_ℤ minutes 60 +ℤ seconds)
  let total_milliseconds = i64 (scale_ℤ total_seconds 1000 +ℤ milliseconds)
  throw_if (ltb_ℤ max_milliseconds total_milliseconds || ltb_ℤ total_milliseconds min_milliseconds)
      out_of_range
  ok (from_ticks (i64 (scale_ℤ total_milliseconds ticks_per_millisecond)))

-- TimeSpan(days, hours, minutes, seconds)
unfoldable pub from_days_time : ℤ → ℤ → ℤ → ℤ → Result TimeSpan
from_days_time days hours minutes seconds =
    from_days_time_milliseconds days hours minutes seconds (pos 0)

-- Compare, a static function of the file.
unfoldable pub compare_spans : TimeSpan → TimeSpan → ℤ
compare_spans t1 t2 =
    if ltb_ℤ t2.ticks t1.ticks then pos 1 else if ltb_ℤ t1.ticks t2.ticks then negsuc 0 else pos 0

-- CompareTo
unfoldable pub compare_to : TimeSpan → TimeSpan → ℤ
compare_to t value =
    if ltb_ℤ value.ticks t.ticks
    then pos 1
    else if ltb_ℤ t.ticks value.ticks
    then negsuc 0
    else pos 0

-- Equals, in its two forms, and operator ==
unfoldable pub equals : TimeSpan → TimeSpan → Bool
equals t1 t2 = eqb_ℤ t1.ticks t2.ticks

-- The lower half of the bits, and the upper.
unfoldable pub get_hash_code : TimeSpan → ℤ
get_hash_code t = of_u32 (bit_xor (u32 (to_u64 t.ticks)) (u32 (to_u64 t.ticks / 2 ^ 32)))

unfoldable pub days : TimeSpan → ℤ
days t = i32 (quot_ℤ t.ticks ticks_per_day)

unfoldable pub hours : TimeSpan → ℤ
hours t = i32 (rem_ℤ (quot_ℤ t.ticks ticks_per_hour) 24)

unfoldable pub minutes : TimeSpan → ℤ
minutes t = i32 (rem_ℤ (quot_ℤ t.ticks ticks_per_minute) 60)

unfoldable pub seconds : TimeSpan → ℤ
seconds t = i32 (rem_ℤ (quot_ℤ t.ticks ticks_per_second) 60)

unfoldable pub milliseconds : TimeSpan → ℤ
milliseconds t = i32 (rem_ℤ (quot_ℤ t.ticks ticks_per_millisecond) 1000)

-- `x >> 63` at an int64_t, which is -1 or 0.
abbrev sign_bits : ℤ → ℤ
sign_bits (pos n) = pos 0
sign_bits (negsuc n) = negsuc 0

-- Add, and the binary operator +
unfoldable pub add : TimeSpan → TimeSpan → Result TimeSpan
add t ts = do
  let result = i64 (t.ticks +ℤ ts.ticks)
  throw_if
      (eqb_ℤ (sign_bits t.ticks) (sign_bits ts.ticks)
        && not (eqb_ℤ (sign_bits t.ticks) (sign_bits result)))
      overflow_error
  ok (from_ticks result)

-- Subtract, and the binary operator -
unfoldable pub subtract : TimeSpan → TimeSpan → Result TimeSpan
subtract t ts = do
  let result = i64 (t.ticks -ℤ ts.ticks)
  throw_if
      (not (eqb_ℤ (sign_bits t.ticks) (sign_bits ts.ticks))
        && not (eqb_ℤ (sign_bits t.ticks) (sign_bits result)))
      overflow_error
  ok (from_ticks result)

unfoldable pub duration : TimeSpan → Result TimeSpan
duration t = do
  throw_if (eqb_ℤ t.ticks int64_min) overflow_error
  ok (from_ticks (if ltb_ℤ t.ticks (pos 0) then neg_ℤ t.ticks else t.ticks))

-- The unary operator -
unfoldable pub negate : TimeSpan → Result TimeSpan
negate t = do throw_if (eqb_ℤ t.ticks int64_min) overflow_error; ok (from_ticks (neg_ℤ t.ticks))

-- The unary operator +
unfoldable pub plus : TimeSpan → TimeSpan
plus t = t

unfoldable pub not_equals : TimeSpan → TimeSpan → Bool
not_equals t1 t2 = not (eqb_ℤ t1.ticks t2.ticks)

unfoldable pub less : TimeSpan → TimeSpan → Bool
less t1 t2 = ltb_ℤ t1.ticks t2.ticks

unfoldable pub less_equal : TimeSpan → TimeSpan → Bool
less_equal t1 t2 = not (ltb_ℤ t2.ticks t1.ticks)

unfoldable pub greater : TimeSpan → TimeSpan → Bool
greater t1 t2 = ltb_ℤ t2.ticks t1.ticks

unfoldable pub greater_equal : TimeSpan → TimeSpan → Bool
greater_equal t1 t2 = not (ltb_ℤ t1.ticks t2.ticks)
