-- ===== src/DateTime/Calendar.antt =====
-- System/DateTime.cpp: the constants, the month tables, and the static helpers that turn a calendar
-- date and a time of day into ticks.
use nuke.Base.{
  ℕ, ◌+◌, ◌-◌, ◌*◌, ◌/◌, ◌%◌, ◌^◌, Bool, true, false, not, ◌||◌, List, [], ◌∷◌, ltb, leb, ◌==◌,
  if◌then◌else◌, get_or, bit_and, bit_or,
}
use nuke.Base.Int.{ℤ, pos, pos_part, ltb_ℤ}
use nuke.Base.Word.{u32, u64, to_u32, to_u64}
use nuke.Base.Result.{Result, ok, invalid_argument, out_of_range, ◌>>=◌, ◌>>◌, throw_if}

abbrev pub ticks_per_millisecond : ℕ
ticks_per_millisecond = 10000

abbrev pub ticks_per_second : ℕ
ticks_per_second = ticks_per_millisecond * 1000

abbrev pub ticks_per_minute : ℕ
ticks_per_minute = ticks_per_second * 60

abbrev pub ticks_per_hour : ℕ
ticks_per_hour = ticks_per_minute * 60

abbrev pub ticks_per_day : ℕ
ticks_per_day = ticks_per_hour * 24

abbrev pub days_per_year : ℕ
days_per_year = 365

abbrev pub days_per_4years : ℕ
days_per_4years = days_per_year * 4 + 1

abbrev pub days_per_100years : ℕ
days_per_100years = days_per_4years * 25 - 1

abbrev pub days_per_400years : ℕ
days_per_400years = days_per_100years * 4 + 1

abbrev pub days_to_1601 : ℕ
days_to_1601 = days_per_400years * 4

abbrev pub days_to_1970 : ℕ
days_to_1970 = days_per_400years * 4 + days_per_100years * 3 + days_per_4years * 17 + days_per_year

abbrev pub days_to_10000 : ℕ
days_to_10000 = days_per_400years * 25 - 366

abbrev pub max_ticks : ℕ
max_ticks = days_to_10000 * ticks_per_day - 1

abbrev pub unix_epoch_ticks : ℕ
unix_epoch_ticks = days_to_1970 * ticks_per_day

abbrev pub file_time_offset : ℕ
file_time_offset = days_to_1601 * ticks_per_day

abbrev pub eaf_multiplier : ℕ
eaf_multiplier = (2 ^ 32 + days_per_4years - 1) / days_per_4years

abbrev pub eaf_divider : ℕ
eaf_divider = eaf_multiplier * 4

abbrev pub ticks_per_6hours : ℕ
ticks_per_6hours = ticks_per_hour * 6

abbrev pub march1_based_day_of_new_year : ℕ
march1_based_day_of_new_year = 306

abbrev pub days_to_month365 : List ℕ
days_to_month365 = 0 ∷ 31 ∷ 59 ∷ 90 ∷ 120 ∷ 151 ∷ 181 ∷ 212 ∷ 243 ∷ 273 ∷ 304 ∷ 334 ∷ 365 ∷ []

abbrev pub days_to_month366 : List ℕ
days_to_month366 = 0 ∷ 31 ∷ 60 ∷ 91 ∷ 121 ∷ 152 ∷ 182 ∷ 213 ∷ 244 ∷ 274 ∷ 305 ∷ 335 ∷ 366 ∷ []

abbrev pub days_in_month365 : List ℕ
days_in_month365 = 31 ∷ 28 ∷ 31 ∷ 30 ∷ 31 ∷ 30 ∷ 31 ∷ 31 ∷ 30 ∷ 31 ∷ 30 ∷ 31 ∷ []

abbrev pub days_in_month366 : List ℕ
days_in_month366 = 31 ∷ 29 ∷ 31 ∷ 30 ∷ 31 ∷ 30 ∷ 31 ∷ 31 ∷ 30 ∷ 31 ∷ 30 ∷ 31 ∷ []

abbrev pub ticks_mask : ℕ
ticks_mask = 0x3FFF_FFFF_FFFF_FFFF

abbrev pub flags_mask : ℕ
flags_mask = 0xC000_0000_0000_0000

abbrev pub kind_unspecified : ℕ
kind_unspecified = 0

abbrev pub kind_utc : ℕ
kind_utc = 0x4000_0000_0000_0000

abbrev pub kind_local : ℕ
kind_local = 0x8000_0000_0000_0000

abbrev pub kind_local_ambiguous_dst : ℕ
kind_local_ambiguous_dst = 0xC000_0000_0000_0000

abbrev pub kind_shift : ℕ
kind_shift = 62

-- The tests of `IsLeapYear` behind its guard, on a year from 1 to 9999.
unfoldable pub leap_rule : ℕ → Bool
leap_rule year =
    if not (bit_and year 3 == 0)
    then false
    else if bit_and year 15 == 0
    then true
    else not (year % 25 == 0)

unfoldable pub is_leap_year : ℤ → Result Bool
is_leap_year year = do
  throw_if (ltb_ℤ year (pos 1) || ltb_ℤ (pos 9999) year) out_of_range
  ok (leap_rule (pos_part year))

-- The table that `IsLeapYear(year) ? DaysToMonth366 : DaysToMonth365` picks, at an index.
unfoldable pub days_to_month : Bool → ℕ → ℕ
days_to_month leap i = if leap then get_or days_to_month366 i 0 else get_or days_to_month365 i 0

unfoldable pub days_in_month : ℤ → ℤ → Result ℕ
days_in_month year month = do
  throw_if (ltb_ℤ month (pos 1) || ltb_ℤ (pos 12) month) invalid_argument
  leap ← is_leap_year year
  ok (get_or (if leap then days_in_month366 else days_in_month365) (pos_part month - 1) 0)

unfoldable pub days_to_year : ℕ → ℕ
days_to_year year =
    let y = u32 (year + 2 ^ 32 - 1) in
    let cent = y / 100 in u32 (u32 (u32 (y * (365 * 4 + 1)) / 4 + 2 ^ 32 - cent) + cent / 4)

-- The part of `DateToTicks` behind its first guard, once the table is chosen.
unfoldable pub date_to_ticks_in : Bool → ℕ → ℕ → ℕ → Result ℕ
date_to_ticks_in leap year month day = do
  throw_if (ltb (u32 (days_to_month leap month + 2 ^ 32 - days_to_month leap (month - 1))) day)
      invalid_argument
  let n = u32 (u32 (days_to_year year + days_to_month leap (month - 1) + day) + 2 ^ 32 - 1)
  ok (u64 (n * ticks_per_day))

unfoldable pub date_to_ticks : ℤ → ℤ → ℤ → Result ℕ
date_to_ticks year month day = do
  throw_if
      (ltb_ℤ year (pos 1)
        || ltb_ℤ (pos 9999) year
        || ltb_ℤ month (pos 1)
        || ltb_ℤ (pos 12) month
        || ltb_ℤ day (pos 1))
      invalid_argument
  leap ← is_leap_year year
  date_to_ticks_in leap (to_u32 year) (pos_part month) (to_u32 day)

unfoldable pub time_to_ticks : ℤ → ℤ → ℤ → Result ℕ
time_to_ticks hour minute second = do
  throw_if (leb 24 (to_u32 hour) || leb 60 (to_u32 minute) || leb 60 (to_u32 second))
      invalid_argument
  let total_seconds = pos_part hour * 3600 + pos_part minute * 60 + pos_part second
  ok (u64 (u32 total_seconds * ticks_per_second))

-- The kind is the enumeration's underlying `int`.
unfoldable pub init : ℤ → ℤ → ℤ → ℤ → ℤ → ℤ → ℤ → ℤ → Result ℕ
init year month day hour minute second millisecond kind = do
  throw_if (leb 1000 (to_u32 millisecond)) out_of_range
  throw_if (ltb 2 (to_u32 kind)) invalid_argument
  date ← date_to_ticks year month day
  time ← time_to_ticks hour minute second
  let ticks = u64 (u64 (date + time) + u32 (to_u32 millisecond * ticks_per_millisecond))
  ok (bit_or ticks (u64 (to_u64 kind * 2 ^ kind_shift)))
