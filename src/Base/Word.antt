-- ===== src/Base/Word.antt =====
-- The fixed widths of C++: casts, two's complement and shifts. A word is the number of its bit
-- pattern; a signed value is an integer. Signed arithmetic that leaves its range wraps around.
use Prim.Native.Nat.{ℕ, ◌-◌, ◌/◌, ◌%◌, ◌^◌, ◌≤◌, ◌<◌}
use native.Mathlib.Omega.{arith}
use nuke.Base.Tests.{ltb, if◌then◌else◌}
use nuke.Base.Int.{ℤ, pos, negsuc, pos_part, neg_part, ◌≤ℤ◌}

abbrev pub u8 : ℕ → ℕ
u8 n = n % 2 ^ 8

abbrev pub u16 : ℕ → ℕ
u16 n = n % 2 ^ 16

abbrev pub u32 : ℕ → ℕ
u32 n = n % 2 ^ 32

abbrev pub u64 : ℕ → ℕ
u64 n = n % 2 ^ 64

-- The casts of a signed value to an unsigned type.
abbrev pub to_u16 : ℤ → ℕ
to_u16 (pos n) = n % 2 ^ 16
to_u16 (negsuc n) = 2 ^ 16 - 1 - n % 2 ^ 16

abbrev pub to_u32 : ℤ → ℕ
to_u32 (pos n) = n % 2 ^ 32
to_u32 (negsuc n) = 2 ^ 32 - 1 - n % 2 ^ 32

abbrev pub to_u64 : ℤ → ℕ
to_u64 (pos n) = n % 2 ^ 64
to_u64 (negsuc n) = 2 ^ 64 - 1 - n % 2 ^ 64

-- The signed value of a bit pattern.
abbrev pub of_u16 : ℕ → ℤ
of_u16 w = if ltb w (2 ^ 15) then pos w else negsuc (2 ^ 16 - 1 - w)

abbrev pub of_u32 : ℕ → ℤ
of_u32 w = if ltb w (2 ^ 31) then pos w else negsuc (2 ^ 32 - 1 - w)

abbrev pub of_u64 : ℕ → ℤ
of_u64 w = if ltb w (2 ^ 63) then pos w else negsuc (2 ^ 64 - 1 - w)

abbrev pub i32 : ℤ → ℤ
i32 z = of_u32 (to_u32 z)

abbrev pub i64 : ℤ → ℤ
i64 z = of_u64 (to_u64 z)

-- C++'s `a >> k` of a signed value, which keeps the sign.
abbrev pub shift_right : ℤ → ℕ → ℤ
shift_right (pos n) k = pos (n / 2 ^ k)
shift_right (negsuc n) k = negsuc (n / 2 ^ k)

-- The ranges of the signed types.
abbrev pub IsInt16 : ℤ → Type 0
IsInt16 z = (negsuc (2 ^ 15 - 1) ≤ℤ z) × (z ≤ℤ pos (2 ^ 15 - 1))

abbrev pub IsInt32 : ℤ → Type 0
IsInt32 z = (negsuc (2 ^ 31 - 1) ≤ℤ z) × (z ≤ℤ pos (2 ^ 31 - 1))

abbrev pub IsInt64 : ℤ → Type 0
IsInt64 z = (negsuc (2 ^ 63 - 1) ≤ℤ z) × (z ≤ℤ pos (2 ^ 63 - 1))

-- One side of an integer is zero, so a range bounds each side.
pub IsInt32-parts : (z : ℤ) → IsInt32 z → (pos_part z < 2 ^ 31) × (neg_part z ≤ 2 ^ 31)
IsInt32-parts z h = ground arith

pub IsInt64-parts : (z : ℤ) → IsInt64 z → (pos_part z < 2 ^ 63) × (neg_part z ≤ 2 ^ 63)
IsInt64-parts z h = ground arith
