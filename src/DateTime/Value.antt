-- ===== src/DateTime/Value.antt =====
-- System/DateTime.cpp: the value, its constructors, the kind, and the comparisons. The default
-- constructor leaves the member without a value and is not here.
use nuke.Base.{ℕ, ◌+◌, ◌*◌, ◌^◌, Bool, not, ltb, ◌==◌, if◌then◌else◌, bit_and, bit_or, bit_xor}
use nuke.Base.Int.{ℤ, pos, ltb_ℤ}
use nuke.Base.Word.{u64, to_u32, to_u64, of_u64}
use nuke.Base.Result.{Result, ok, invalid_argument, out_of_range, ◌>>=◌, ◌>>◌, throw_if}
use nuke.DateTime.Calendar.{
  max_ticks, ticks_mask, flags_mask, kind_unspecified, kind_utc, kind_shift, date_to_ticks,
  time_to_ticks, init,
}

pub record DateTime : Type 0 where
  pub date_data : ℕ

abbrev pub from_data : ℕ → DateTime
from_data n = record { date_data = n }

-- DateTimeKind, as the enumeration's underlying `int`.
abbrev pub unspecified : ℤ
unspecified = pos 0

abbrev pub utc : ℤ
utc = pos 1

abbrev pub local : ℤ
local = pos 2

abbrev pub min_value : DateTime
min_value = from_data 0

-- DateTime(int64_t)
unfoldable pub from_ticks : ℤ → Result DateTime
from_ticks ticks = do
  let uticks = to_u64 ticks
  throw_if (ltb max_ticks uticks) out_of_range
  ok (from_data uticks)

-- DateTime(int64_t, DateTimeKind)
unfoldable pub from_ticks_kind : ℤ → ℤ → Result DateTime
from_ticks_kind ticks kind = do
  let uticks = to_u64 ticks
  throw_if (ltb max_ticks uticks) out_of_range
  let ukind = to_u32 kind
  throw_if (ltb 2 ukind) invalid_argument
  ok (from_data (bit_or uticks (u64 (ukind * 2 ^ kind_shift))))

-- DateTime(year, month, day)
unfoldable pub from_date : ℤ → ℤ → ℤ → Result DateTime
from_date year month day = do ticks ← date_to_ticks year month day; ok (from_data ticks)

-- DateTime(year, month, day, hour, minute, second)
unfoldable pub from_date_time : ℤ → ℤ → ℤ → ℤ → ℤ → ℤ → Result DateTime
from_date_time year month day hour minute second = do
  date ← date_to_ticks year month day
  time ← time_to_ticks hour minute second
  ok (from_data (u64 (date + time)))

-- DateTime(year, month, day, hour, minute, second, kind): the kind is not checked here.
unfoldable pub from_date_time_kind : ℤ → ℤ → ℤ → ℤ → ℤ → ℤ → ℤ → Result DateTime
from_date_time_kind year month day hour minute second kind = do
  let ukind = to_u32 kind
  date ← date_to_ticks year month day
  time ← time_to_ticks hour minute second
  ok (from_data (bit_or (u64 (date + time)) (u64 (ukind * 2 ^ kind_shift))))

-- DateTime(year, month, day, hour, minute, second, millisecond[, kind])
unfoldable pub from_date_time_millisecond : ℤ → ℤ → ℤ → ℤ → ℤ → ℤ → ℤ → ℤ → Result DateTime
from_date_time_millisecond year month day hour minute second millisecond kind = do
  ticks ← init year month day hour minute second millisecond kind
  ok (from_data ticks)

unfoldable pub internal_kind : ℕ → ℕ
internal_kind date_time_data = bit_and date_time_data flags_mask

unfoldable pub internal_ticks : ℕ → ℕ
internal_ticks date_time_data = bit_and date_time_data ticks_mask

unfoldable pub ticks : DateTime → ℤ
ticks t = of_u64 (bit_and t.date_data ticks_mask)

unfoldable pub u_ticks : DateTime → ℕ
u_ticks t = to_u64 (ticks t)

unfoldable pub kind : DateTime → ℤ
kind t =
    let k = internal_kind t.date_data in
    if k == kind_unspecified then unspecified else if k == kind_utc then utc else local

unfoldable pub equals : DateTime → DateTime → Bool
equals a b = u64 (bit_xor a.date_data b.date_data * 2 ^ 2) == 0

unfoldable pub not_equals : DateTime → DateTime → Bool
not_equals a b = not (equals a b)

unfoldable pub less : DateTime → DateTime → Bool
less a b = ltb_ℤ (ticks a) (ticks b)

unfoldable pub less_equal : DateTime → DateTime → Bool
less_equal a b = not (ltb_ℤ (ticks b) (ticks a))

unfoldable pub greater : DateTime → DateTime → Bool
greater a b = ltb_ℤ (ticks b) (ticks a)

unfoldable pub greater_equal : DateTime → DateTime → Bool
greater_equal a b = not (ltb_ℤ (ticks a) (ticks b))
