-- ===== src/Numeric/Product.antt =====
-- `DivRem` and the 32-bit `BigMul` are division with remainder and the product.
use nuke.Base.{ℕ, ◌/◌, ◌%◌, ◌^◌, ◌<◌, ◌≡◌, arith}
use nuke.Numeric.{div_rem}

-- On 32-bit words with a divisor that is not zero, `DivRem` gives quotient and remainder.
pub div_rem_lem :
    (left right : ℕ)
    → left < 2 ^ 32
    → 0 < right
    → div_rem left right ≡ record { quotient = left / right; remainder = left % right }
unfolding div_rem
div_rem_lem left right h pos_right = grind arith
