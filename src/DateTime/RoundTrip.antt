-- ===== src/DateTime/RoundTrip.antt =====
-- Constructing a date and time and reading its parts back.
use nuke.Base.{ℕ, ◌+◌, ◌*◌, ◌/◌, ◌%◌, ◌^◌, ◌≤◌, ◌<◌, ◌≡◌, arith}
use nuke.Base.Int.{pos}
use nuke.Base.Bits.{bit_or_high, bit_and_high, bit_and_mask}
use nuke.Base.Result.{ok}
use nuke.DateTime.Gregorian.{day_number, IsDate}
use nuke.DateTime.Calendar.{ticks_per_day, ticks_per_second, time_to_ticks, init}
use nuke.DateTime.Ordinal.{day_number-lt, date_to_ticks-day_number}
use nuke.DateTime.Value.{
  DateTime, from_data, from_date_time_millisecond, u_ticks, kind, internal_kind,
}
use nuke.DateTime.Fields.{get_date, hour, minute, second, millisecond, time_of_day}
use nuke.DateTime.Parts.{u_ticks-mod, get_date-OnDate}

pub record IsTime (h mi s ms : ℕ) : Type 0 where
  pub hour_to : h < 24
  pub minute_to : mi < 60
  pub second_to : s < 60
  pub millisecond_to : ms < 1000

abbrev pub clock_ticks : ℕ → ℕ → ℕ → ℕ → ℕ
clock_ticks h mi s ms = ((h * 60 + mi) * 60 + s) * ticks_per_second + ms * 10000

-- Day, time of day and kind as one number.
abbrev pub packed : ℕ → ℕ → ℕ → ℕ
packed n clock k = k * 2 ^ 62 + (n * ticks_per_day + clock)

time_to_ticks_lem :
    (h mi s ms : ℕ)
    → IsTime h mi s ms
    → time_to_ticks (pos h) (pos mi) (pos s) ≡ ok (clock_ticks h mi s 0)
unfolding time_to_ticks
time_to_ticks_lem h mi s ms v = ground arith

init_lem :
    (y m d h mi s ms k : ℕ)
    → IsDate y m d
    → IsTime h mi s ms
    → k ≤ 2
    → init (pos y) (pos m) (pos d) (pos h) (pos mi) (pos s) (pos ms) (pos k)
      ≡ ok (packed (day_number y m d) (clock_ticks h mi s ms) k)
unfolding init
init_lem y m d h mi s ms k v w hk = ground (
  arith,
  date_to_ticks-day_number y m d v,
  day_number-lt y m d v,
  time_to_ticks_lem h mi s ms w,
  bit_or_high 62 (day_number y m d * ticks_per_day + clock_ticks h mi s ms) k,
)

-- The kind is read from the top two bits.
pub internal_kind_lem : (bits : ℕ) → internal_kind bits ≡ bits / 2 ^ 62 % 4 * 2 ^ 62
unfolding internal_kind
internal_kind_lem bits = ground (arith, bit_and_high 62 bits 3, bit_and_mask 2 (bits / 2 ^ 62))

module _ (h mi s ms : ℕ) (w : IsTime h mi s ms) (n k : ℕ) (hn : n < 3652059) (hk : k ≤ 2) where
  abbrev stamp : DateTime
  stamp = from_data (packed n (clock_ticks h mi s ms) k)

  u_ticks-stamp : u_ticks stamp ≡ n * ticks_per_day + clock_ticks h mi s ms
  u_ticks-stamp = omega (arith, u_ticks-mod stamp)

  kind-stamp : kind stamp ≡ pos k
  unfolding kind
  kind-stamp = ground (arith, internal_kind_lem (packed n (clock_ticks h mi s ms) k))

  clock_stamp :
      (hour stamp ≡ h)
      × (minute stamp ≡ mi)
      × (second stamp ≡ s)
      × (millisecond stamp ≡ ms)
      × (time_of_day stamp ≡ clock_ticks h mi s ms)
  unfolding hour minute second millisecond time_of_day
  clock_stamp = rw u_ticks-stamp (omega arith)

-- For a Gregorian date of the years 1 to 9999, a time of day in range and one of the kinds 0 to 2,
-- the constructor with milliseconds returns a value, and `GetDate`, `Hour`, `Minute`, `Second`,
-- `Millisecond` and `Kind` give every part back.
pub from_date_time_millisecond-parts :
    (y m d h mi s ms k : ℕ)
    → IsDate y m d
    → IsTime h mi s ms
    → k ≤ 2
    → (t : DateTime) × (from_date_time_millisecond
          (pos y)
          (pos m)
          (pos d)
          (pos h)
          (pos mi)
          (pos s)
          (pos ms)
          (pos k)
        ≡ ok t)
      × (get_date t ≡ record { year = pos y; month = pos m; day = pos d })
      × (hour t ≡ h)
      × (minute t ≡ mi)
      × (second t ≡ s)
      × (millisecond t ≡ ms)
      × (kind t ≡ pos k)
unfolding from_date_time_millisecond
from_date_time_millisecond-parts y m d h mi s ms k v w hk =
    let n = day_number y m d in
    let n_lt = day_number-lt y m d v in
    let t = from_data (packed n (clock_ticks h mi s ms) k) in
    let clock = clock_stamp h mi s ms w n k n_lt hk in
    (
      t,
      rw (init_lem y m d h mi s ms k v w hk),
      get_date-OnDate y m d v t (omega (arith, u_ticks-stamp h mi s ms w n k n_lt hk)),
      clock.0,
      clock.1,
      clock.2,
      clock.3,
      kind-stamp h mi s ms w n k n_lt hk,
    )
