-- ===== src/Numeric/Tests.antt =====
-- The theorem of `System/Math.h` at concrete values.
use nuke.Base.{◌-◌, ◌^◌, ◌≡◌, arith}
use nuke.Base.Int.{pos, negsuc, ◌+ℤ◌, ◌*ℤ◌, scale_ℤ}
use nuke.Base.Word.{to_u64}
use nuke.Numeric.{big_mul_i64}
use nuke.Numeric.SignedProduct.{big_mul_i64_exact}

-- The smallest number times three.
big_mul_i64_exact_example :
    scale_ℤ (big_mul_i64 (negsuc (2 ^ 63 - 1)) (pos 3)).high (2 ^ 64)
      +ℤ pos (to_u64 (big_mul_i64 (negsuc (2 ^ 63 - 1)) (pos 3)).low)
    ≡ negsuc (2 ^ 63 - 1) *ℤ pos 3
big_mul_i64_exact_example =
    big_mul_i64_exact (negsuc (2 ^ 63 - 1)) (pos 3) (omega arith) (omega arith)
