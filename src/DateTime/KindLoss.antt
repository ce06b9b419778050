-- ===== src/DateTime/KindLoss.antt =====
-- What the operations of `Shift` return. The one-argument constructor refuses a number above the
-- largest ticks, so it refuses each value that carries kind bits.
use nuke.Base.{
  ℕ, ◌+◌, ◌-◌, ◌*◌, ◌/◌, ◌%◌, ◌^◌, ◌≤◌, ◌<◌, ◌≡◌, ◌⊎◌, inl, inr, arith, true, false, ltb, bit_or,
  Bool-cases,
}
use nuke.Base.Int.{ℤ, pos, negsuc, ◌+ℤ◌, ◌-ℤ◌, ◌≤ℤ◌, scale_ℤ, int_laws}
use nuke.Base.Word.{to_u64, i64, IsInt64}
use nuke.Base.Bits.{bit_or-zero, bit_or_high}
use nuke.Base.Result.{Result, ok, throws, out_of_range, throw_if, ◌>>◌, ByCases, ByCases-of}
use nuke.TimeSpan
use nuke.TimeSpan.Overflow.{i64_lem}
use nuke.DateTime.Calendar.{max_ticks, ticks_per_day, ticks_per_second, unix_epoch_ticks}
use nuke.DateTime.Value.{DateTime, from_data, from_ticks, internal_kind, ticks, u_ticks}
use nuke.DateTime.Parts.{u_ticks-mod, ticks-u_ticks}
use nuke.DateTime.RoundTrip.{internal_kind_lem}
use nuke.DateTime.Shift.{
  from_u64, add_ticks, add, subtract_span, date, specify_kind, utc_now, now, today,
}

from_u64_large : (b : ℕ) → b < 2 ^ 64 → max_ticks < b → from_u64 b ≡ throws out_of_range
unfolding from_u64 from_ticks
from_u64_large b h k = ground arith

pub from_u64_small : (b : ℕ) → b ≤ max_ticks → from_u64 b ≡ ok (from_data b)
unfolding from_u64 from_ticks
from_u64_small b h = ground arith

-- Ticks with kind bits are more than the constructor takes.
with_kind :
    (r c : ℕ) → r < 2 ^ 62 → 0 < c → c < 4 → from_u64 (bit_or r (c * 2 ^ 62)) ≡ throws out_of_range
with_kind r c hr pos_c hc =
    rw (bit_or_high 62 r c hr) (from_u64_large (c * 2 ^ 62 + r) (omega arith) (omega arith))

abbrev pub Unspecified : DateTime → Type 0
Unspecified t = t.date_data ≤ max_ticks

-- Some bit above the ticks is set.
abbrev pub HasKind : DateTime → Type 0
HasKind t = 0 < t.date_data / 2 ^ 62 % 4

-- The integer is the number of ticks of a date and time.
abbrev pub InTicks : ℤ → Type 0
InTicks z = (pos 0 ≤ℤ z) × (z ≤ℤ pos max_ticks)

-- `r` is the date and time at `z` ticks, or an error if there is none.
abbrev pub AtTicks : ℤ → Result DateTime → Type 0
AtTicks z = ByCases (InTicks z) (ok (from_data (to_u64 z))) (throws out_of_range)

InTicks-or : (z : ℤ) → InTicks z ⊎ (¬ InTicks z)
InTicks-or z = ground arith

pub Unspecified-parts :
    (t : DateTime) → Unspecified t → (internal_kind t.date_data ≡ 0) × (ticks t ≡ pos t.date_data)
Unspecified-parts t h =
    (omega (arith, internal_kind_lem t.date_data), ground (arith, ticks-u_ticks t, u_ticks-mod t))

moved_test :
    (n : ℕ) (v : ℤ)
    → n ≤ max_ticks
    → IsInt64 v
    → (InTicks (pos n +ℤ v) → to_u64 (i64 (pos n +ℤ v)) ≡ to_u64 (pos n +ℤ v))
      × (¬ InTicks (pos n +ℤ v) → ltb max_ticks (to_u64 (i64 (pos n +ℤ v))) ≡ true)
unfolding ◌+ℤ◌
moved_test n (pos v) h k = (λ fits. ground arith, λ over. ground arith)
moved_test n (negsuc v) h k = (λ fits. ground arith, λ over. ground arith)

to_u64-InTicks : (z : ℤ) → InTicks z → (to_u64 z ≤ max_ticks) × (ltb max_ticks (to_u64 z) ≡ false)
to_u64-InTicks z h = ground arith

-- On a value of no kind `AddTicks` of an int64_t is the value at the exact sum of ticks if that
-- lies in the range of dates, and throws `out_of_range` if it does not.
pub add_ticks-AtTicks :
    (t : DateTime) (value : ℤ)
    → Unspecified t
    → IsInt64 value
    → AtTicks (pos t.date_data +ℤ value) (add_ticks t value)
unfolding add_ticks
add_ticks-AtTicks t v h k =
    let parts = Unspecified-parts t h in
    let test = moved_test t.date_data v h k in
    rw (parts.1, parts.0)
      (ByCases-of _ (InTicks-or _)
        (λ fits.
          rw (test.0 fits, (to_u64-InTicks _ fits).1, bit_or-zero)
            (from_u64_small _ (to_u64-InTicks _ fits).0))
        (λ over. rw (test.1 over)))

-- The guard passes only numbers that the constructor refuses once kind bits are added.
refused :
    (moved kind : ℕ)
    → 0 < kind / 2 ^ 62 % 4
    → (throw_if (ltb max_ticks moved) out_of_range >> from_u64 (bit_or moved (internal_kind kind)))
      ≡ throws out_of_range
refused moved kind h = elim (Bool-cases (ltb max_ticks moved)) [
  | inl over ↦ rw over
  | inr fits ↦
      rw (fits, internal_kind_lem kind)
        (with_kind moved (kind / 2 ^ 62 % 4) (ground arith) h (omega arith))
]

-- On a value whose kind is not `Unspecified`, `AddTicks`, `Add` and `Subtract` throw
-- `out_of_range` for every distance, and so does `Date`.
pub HasKind-throws :
    (t : DateTime) (value : ℤ)
    → HasKind t
    → (add_ticks t value ≡ throws out_of_range)
      × (add t (TimeSpan.from_ticks value) ≡ throws out_of_range)
      × (subtract_span t (TimeSpan.from_ticks value) ≡ throws out_of_range)
      × (date t ≡ throws out_of_range)
unfolding add add_ticks subtract_span date
HasKind-throws t value h =
    let midnight : u_ticks t - u_ticks t % ticks_per_day < 2 ^ 62 = omega (arith, u_ticks-mod t) in
    (
      refused (to_u64 (i64 (ticks t +ℤ value))) t.date_data h,
      refused (to_u64 (i64 (ticks t +ℤ value))) t.date_data h,
      refused (to_u64 (i64 (ticks t -ℤ value))) t.date_data h,
      rw internal_kind_lem (with_kind _ (t.date_data / 2 ^ 62 % 4) midnight h (omega arith)),
    )

-- For a value whose ticks lie in the range of dates `SpecifyKind` returns for `Unspecified`, with
-- the kind cleared, and throws `out_of_range` for `Utc` and `Local`.
pub specify_kind_lem :
    (t : DateTime)
    → u_ticks t ≤ max_ticks
    → (specify_kind t (pos 0) ≡ ok (from_data (u_ticks t)))
      × (specify_kind t (pos 1) ≡ throws out_of_range)
      × (specify_kind t (pos 2) ≡ throws out_of_range)
unfolding specify_kind
specify_kind_lem t h = (
  rw bit_or-zero (from_u64_small (u_ticks t) h),
  with_kind (u_ticks t) 1 (omega arith) (omega arith) (omega arith),
  with_kind (u_ticks t) 2 (omega arith) (omega arith) (omega arith),
)

utc_now_throws :
    (seconds : ℤ)
    → InTicks (scale_ℤ seconds ticks_per_second +ℤ pos unix_epoch_ticks)
    → utc_now seconds ≡ throws out_of_range
unfolding utc_now
utc_now_throws seconds h =
    let since_epoch = scale_ℤ seconds ticks_per_second in
    let instant = since_epoch +ℤ pos unix_epoch_ticks in
    rw (i64_lem since_epoch (omega int_laws), i64_lem instant (omega arith))
      (with_kind (to_u64 instant) 1 (omega (arith, (to_u64-InTicks instant h).0)) (omega arith)
        (omega arith))

-- If the ticks of the clock reading lie in the range of dates, `UtcNow`, `Now` and `Today` throw
-- `out_of_range`.
pub now_throws :
    (seconds second_offset : ℤ)
    → InTicks (scale_ℤ seconds ticks_per_second +ℤ pos unix_epoch_ticks)
    → (utc_now seconds ≡ throws out_of_range)
      × (now seconds second_offset ≡ throws out_of_range)
      × (today seconds second_offset ≡ throws out_of_range)
unfolding now today
now_throws seconds second_offset h =
    let fails = utc_now_throws seconds h in (fails, rw fails, rw fails)
