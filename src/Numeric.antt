-- ===== src/Numeric.antt =====
-- System/Math.h: the integer helpers. `Round`, which works on floating point, is not here.
pub mod Product
pub mod WideProduct
pub mod SignedProduct
pub mod Tests
use nuke.Base.{ℕ, ◌+◌, ◌-◌, ◌*◌, ◌/◌, ◌%◌, ◌^◌, Bool, ltb, leb, if◌then◌else◌, bit_and, bit_or}
use nuke.Base.Int.{ℤ, ◌-ℤ◌, ◌*ℤ◌}
use nuke.Base.Word.{u32, u64, i64, to_u64, of_u64, shift_right}

-- Math::Min at an integer type.
unfoldable pub min_number : ℕ → ℕ → ℕ
min_number n1 n2 = if leb n1 n2 then n1 else n2

-- Math::DivRem(uint32_t, uint32_t). C++ leaves a zero divisor undefined; no caller passes one.
unfoldable pub div_rem : ℕ → ℕ → record { quotient : ℕ; remainder : ℕ }
div_rem left right =
    let quotient = left / right in
    record { quotient = quotient; remainder = u32 (left + 2 ^ 32 - u32 (quotient * right)) }

-- Math::BigMul(int32_t, int32_t): the product of two 32-bit values fits an int64_t.
unfoldable pub big_mul : ℤ → ℤ → ℤ
big_mul a b = a *ℤ b

-- Math::BigMul(uint64_t, uint64_t, uint64_t& low): the high half is returned, the low one stored.
unfoldable pub big_mul_u64 : ℕ → ℕ → record { high : ℕ; low : ℕ }
big_mul_u64 a b =
    let al = u32 a in
    let ah = u32 (a / 2 ^ 32) in
    let bl = u32 b in
    let bh = u32 (b / 2 ^ 32) in
    let mull = u64 (al * bl) in
    let t = u64 (u64 (ah * bl) + mull / 2 ^ 32) in
    let tl = u64 (u64 (al * bh) + u32 t) in
    record {
      high = u64 (u64 (u64 (ah * bh) + t / 2 ^ 32) + tl / 2 ^ 32);
      low = bit_or (u64 (tl * 2 ^ 32)) (u32 mull);
    }

-- `(a >> 63) & b`
unfoldable pub masked : ℤ → ℤ → ℤ
masked a b = of_u64 (bit_and (to_u64 (shift_right a 63)) (to_u64 b))

-- Math::BigMul(int64_t, int64_t, int64_t& low)
unfoldable pub big_mul_i64 : ℤ → ℤ → record { high : ℤ; low : ℤ }
big_mul_i64 a b =
    let product = big_mul_u64 (to_u64 a) (to_u64 b) in
    record {
      high = i64 (i64 (of_u64 product.high -ℤ masked a b) -ℤ masked b a);
      low = of_u64 product.low;
    }
