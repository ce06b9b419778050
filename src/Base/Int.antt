-- ===== src/Base/Int.antt =====
-- Signed integers over the native numbers, under the library's names (its ℤ stands on the unary ℕ).
use Prim.Native.Nat.{ℕ, suc, ◌+◌, ◌-◌, ◌*◌, ◌/◌, ◌%◌, ◌≤◌}
use mathlib.Core.Path.{◌≡◌}
use mathlib.Core.Bool.{Bool}
use native.Mathlib.Omega.{arith}
use nuke.Base.Tests.{ltb, leb, ◌==◌, if◌then◌else◌}

-- `negsuc n` is -(n + 1).
pub data ℤ : Type 0 where
  pos : ℕ → ℤ
  negsuc : ℕ → ℤ

abbrev pub pos_part : ℤ → ℕ
pos_part (pos n) = n
pos_part (negsuc n) = 0

abbrev pub neg_part : ℤ → ℕ
neg_part (pos n) = 0
neg_part (negsuc n) = suc n

-- a - b, as an integer.
abbrev pub sub_ℕ : ℕ → ℕ → ℤ
sub_ℕ a b = if leb b a then pos (a - b) else negsuc (b - a - 1)

infixl 65 ◌+ℤ◌ ◌-ℤ◌
infixl 70 ◌*ℤ◌
infix 50 ◌≤ℤ◌
unfoldable pub ◌+ℤ◌ : ℤ → ℤ → ℤ
a +ℤ b = sub_ℕ (pos_part a + pos_part b) (neg_part a + neg_part b)

unfoldable pub ◌-ℤ◌ : ℤ → ℤ → ℤ
a -ℤ b = sub_ℕ (pos_part a + neg_part b) (neg_part a + pos_part b)

unfoldable pub ◌*ℤ◌ : ℤ → ℤ → ℤ
a *ℤ b =
    sub_ℕ (pos_part a * pos_part b + neg_part a * neg_part b)
      (pos_part a * neg_part b + neg_part a * pos_part b)

abbrev pub neg_ℤ : ℤ → ℤ
neg_ℤ a = sub_ℕ (neg_part a) (pos_part a)

abbrev pub ◌≤ℤ◌ : ℤ → ℤ → Type 0
a ≤ℤ b = pos_part a + neg_part b ≤ pos_part b + neg_part a

abbrev pub ltb_ℤ : ℤ → ℤ → Bool
ltb_ℤ a b = ltb (pos_part a + neg_part b) (pos_part b + neg_part a)

abbrev pub eqb_ℤ : ℤ → ℤ → Bool
eqb_ℤ a b = (pos_part a + neg_part b) == (pos_part b + neg_part a)

-- C++'s `a / k` and `a % k` at a positive `k`: the quotient is cut towards zero.
abbrev pub quot_ℤ : ℤ → ℕ → ℤ
quot_ℤ a k = sub_ℕ (pos_part a / k) (neg_part a / k)

abbrev pub rem_ℤ : ℤ → ℕ → ℤ
rem_ℤ a k = sub_ℕ (pos_part a % k) (neg_part a % k)

-- A product with a constant, which `omega` reads.
unfoldable pub scale_ℤ : ℤ → ℕ → ℤ
scale_ℤ a k = sub_ℕ (pos_part a * k) (neg_part a * k)

-- One lemma for each operation lets `omega` work with the operations shut, at any depth.
pub +ℤ_parts :
    (a b : ℤ)
    → pos_part (a +ℤ b) + neg_part a + neg_part b ≡ neg_part (a +ℤ b) + pos_part a + pos_part b
unfolding ◌+ℤ◌
+ℤ_parts a b = ground arith

pub -ℤ_parts :
    (a b : ℤ)
    → pos_part (a -ℤ b) + neg_part a + pos_part b ≡ neg_part (a -ℤ b) + pos_part a + neg_part b
unfolding ◌-ℤ◌
-ℤ_parts a b = ground arith

pub scale_ℤ_parts :
    (a : ℤ) (k : ℕ)
    → pos_part (scale_ℤ a k) + neg_part a * k ≡ neg_part (scale_ℤ a k) + pos_part a * k
unfolding scale_ℤ
scale_ℤ_parts a k = grind arith

pub eq_of_parts : (a b : ℤ) → pos_part a + neg_part b ≡ pos_part b + neg_part a → a ≡ b
eq_of_parts a b h = ground arith

-- An operation does not make the parts larger than they were together.
pub +ℤ_within : (a b : ℤ) → pos_part (a +ℤ b) ≤ pos_part a + pos_part b
unfolding ◌+ℤ◌
+ℤ_within a b = ground arith

pub -ℤ_within : (a b : ℤ) → pos_part (a -ℤ b) ≤ pos_part a + neg_part b
unfolding ◌-ℤ◌
-ℤ_within a b = ground arith

pub scale_ℤ_within : (a : ℤ) (k : ℕ) → pos_part (scale_ℤ a k) ≤ pos_part a * k
unfolding scale_ℤ
scale_ℤ_within a k = grind arith

pub ruleset int_bounds =
    (arith, +ℤ_parts, -ℤ_parts, scale_ℤ_parts, +ℤ_within, -ℤ_within, scale_ℤ_within)

pub ruleset int_laws = (arith, +ℤ_parts, -ℤ_parts, scale_ℤ_parts, eq_of_parts)
