-- ===== src/Numeric/SignedProduct.antt =====
-- The signed 128-bit multiplication `BigMul(int64_t, int64_t, int64_t&)`.
use nuke.Base.{ℕ, zero, suc, ◌+◌, ◌-◌, ◌*◌, ◌/◌, ◌%◌, ◌^◌, ◌≤◌, ◌<◌, ◌≡◌, ap, arith, bit_and}
use nuke.Base.Bits.{bit_and_step, zero-bit_and}
use nuke.Base.Int.{
  ℤ, pos, negsuc, pos_part, neg_part, ◌+ℤ◌, ◌-ℤ◌, ◌*ℤ◌, scale_ℤ, eq_of_parts, +ℤ_parts, -ℤ_parts,
  scale_ℤ_parts,
}
use nuke.Base.Word.{i64, to_u64, of_u64, IsInt64}
use native.Mathlib.Nat.{pow-suc, one-le-pow, mul-le-mul_left, mul-le-mul_right}
use nuke.Numeric.{big_mul_u64, masked, big_mul_i64}
use nuke.Numeric.WideProduct.{big_mul_u64_exact}

-- A mask of ones keeps every bit.
ones_mask : (k y : ℕ) → y < 2 ^ k → bit_and (2 ^ k - 1) y ≡ y
ones_mask zero y h = ground (arith, bit_and_step 0 0)
ones_mask (suc k) y h = ground (
  arith,
  bit_and_step (2 ^ suc k - 1) y,
  pow-suc 2 k,
  one-le-pow 2 k,
  ones_mask k (y / 2),
  ap (λ (t : ℕ). bit_and t (y / 2)),
)

masked-pos : (n : ℕ) (b : ℤ) → n < 2 ^ 63 → IsInt64 b → masked (pos n) b ≡ pos 0
unfolding masked
masked-pos n b hn hb =
    let shifted : n / 2 ^ 63 % 2 ^ 64 ≡ 0 = omega arith in
    rw (shifted, zero-bit_and (to_u64 b)) (ground arith)

masked-negsuc : (n : ℕ) (b : ℤ) → n < 2 ^ 63 → IsInt64 b → masked (negsuc n) b ≡ b
unfolding masked
masked-negsuc n b hn hb =
    let shifted : 2 ^ 64 - 1 - n / 2 ^ 63 % 2 ^ 64 ≡ 2 ^ 64 - 1 = omega arith in
    rw (shifted, ones_mask 64 (to_u64 b) (ground arith)) (ground arith)

-- The two halves as one number.
abbrev joined : ℤ → ℤ → ℤ
joined high low = scale_ℤ high (2 ^ 64) +ℤ pos (to_u64 low)

square_bound : (m n : ℕ) → m ≤ 2 ^ 63 → n ≤ 2 ^ 63 → m * n ≤ 2 ^ 63 * 2 ^ 63
square_bound m n hm hn = omega (arith, mul-le-mul_right n hm, mul-le-mul_left (2 ^ 63) hn)

complement : (m n : ℕ) → n ≤ 2 ^ 64 → m * (2 ^ 64 - n) + m * n ≡ m * 2 ^ 64
complement m n h =
    let whole : 2 ^ 64 - n + n ≡ 2 ^ 64 = omega arith in omega (arith, ap (λ (t : ℕ). m * t) whole)

-- A word read as signed and back is the word itself.
to_u64-of_u64 : (w : ℕ) → w < 2 ^ 64 → to_u64 (of_u64 w) ≡ w
to_u64-of_u64 w h = ground arith

-- A cast to 64 bits keeps the remainder.
i64_mod :
    (z : ℤ)
    → IsInt64 (i64 z)
      × ((pos_part (i64 z) + neg_part z) % 2 ^ 64 ≡ (neg_part (i64 z) + pos_part z) % 2 ^ 64)
i64_mod z = ground arith

of_u64_mod :
    (h : ℕ) → h < 2 ^ 64 → pos_part (of_u64 h) % 2 ^ 64 ≡ (neg_part (of_u64 h) + h) % 2 ^ 64
of_u64_mod h hh = ground arith

corrected-of_parts :
    (h l k : ℕ) (x y z : ℤ)
    → h < 2 ^ 64
    → l < 2 ^ 64
    → k ≤ 1
    → IsInt64 x
    → IsInt64 y
    → pos_part z ≤ 2 ^ 63 * 2 ^ 63
    → neg_part z ≤ 2 ^ 63 * 2 ^ 63
    → pos_part z + (pos_part x + pos_part y) * 2 ^ 64 + k * 2 ^ 128
      ≡ neg_part z + h * 2 ^ 64 + l + (neg_part x + neg_part y) * 2 ^ 64
    → joined (i64 (i64 (of_u64 h -ℤ x) -ℤ y)) (of_u64 l) ≡ z
corrected-of_parts h l k x y z hh hl hk hx hy hp hn e =
    let u = of_u64 h in
    let v = u -ℤ x in
    let w = i64 v -ℤ y in
    let low : to_u64 (of_u64 l) ≡ l = to_u64-of_u64 l hl in
    rw low (
      eq_of_parts (scale_ℤ (i64 w) (2 ^ 64) +ℤ pos l) z (
        omega (
          arith,
          of_u64_mod h hh,
          -ℤ_parts u x,
          i64_mod v,
          -ℤ_parts (i64 v) y,
          i64_mod w,
          scale_ℤ_parts (i64 w) (2 ^ 64),
          +ℤ_parts (scale_ℤ (i64 w) (2 ^ 64)) (pos l),
        )))

high-word : (a b : ℕ) → (big_mul_u64 a b).high < 2 ^ 64
unfolding big_mul_u64
high-word a b = omega arith

*ℤ_parts :
    (a b : ℤ)
    → (pos_part (a *ℤ b) + (pos_part a * neg_part b + neg_part a * pos_part b)
        ≡ neg_part (a *ℤ b) + (pos_part a * pos_part b + neg_part a * neg_part b))
      × (pos_part (a *ℤ b) ≤ pos_part a * pos_part b + neg_part a * neg_part b)
      × (neg_part (a *ℤ b) ≤ pos_part a * neg_part b + neg_part a * pos_part b)
unfolding ◌*ℤ◌
*ℤ_parts a b = ground arith

to_u64-word : (a : ℤ) → IsInt64 a → to_u64 a < 2 ^ 64
to_u64-word a h = ground arith

from_unsigned :
    (a b x y : ℤ) (k : ℕ)
    → IsInt64 a
    → IsInt64 b
    → k ≤ 1
    → IsInt64 x
    → IsInt64 y
    → masked a b ≡ x
    → masked b a ≡ y
    → pos_part (a *ℤ b) ≤ 2 ^ 63 * 2 ^ 63
    → neg_part (a *ℤ b) ≤ 2 ^ 63 * 2 ^ 63
    → pos_part (a *ℤ b) + (pos_part x + pos_part y) * 2 ^ 64 + k * 2 ^ 128
      ≡ neg_part (a *ℤ b) + to_u64 a * to_u64 b + (neg_part x + neg_part y) * 2 ^ 64
    → joined (big_mul_i64 a b).high (big_mul_i64 a b).low ≡ a *ℤ b
unfolding big_mul_i64
from_unsigned a b x y k ha hb hk hx hy ex ey hp hn e =
    let p = big_mul_u64 (to_u64 a) (to_u64 b) in
    let exact = big_mul_u64_exact (to_u64 a) (to_u64 b) (to_u64-word a ha) (to_u64-word b hb) in
    rw (ex, ey)
      (corrected-of_parts p.high p.low k x y (a *ℤ b) (high-word (to_u64 a) (to_u64 b)) exact.1 hk
        hx hy hp hn (omega (arith, e, exact)))

zero-IsInt64 : IsInt64 (pos 0)
zero-IsInt64 = omega arith

-- For two signed 64-bit numbers the high half that `BigMul` returns, times 2 ^ 64, and the low half
-- that it stores, read without its sign, make up their exact product.
pub big_mul_i64_exact :
    (a b : ℤ)
    → IsInt64 a
    → IsInt64 b
    → scale_ℤ (big_mul_i64 a b).high (2 ^ 64) +ℤ pos (to_u64 (big_mul_i64 a b).low) ≡ a *ℤ b
big_mul_i64_exact (pos m) (pos n) ha hb =
    let parts = *ℤ_parts (pos m) (pos n) in
    let size = square_bound m n (omega arith) (omega arith) in
    let m_word : m % 2 ^ 64 ≡ m = omega arith in
    let n_word : n % 2 ^ 64 ≡ n = omega arith in
    from_unsigned (pos m) (pos n) (pos 0) (pos 0) 0 ha hb (omega arith) zero-IsInt64 zero-IsInt64
      (masked-pos m (pos n) (omega arith) hb) (masked-pos n (pos m) (omega arith) ha)
      (omega (arith, parts, size)) (omega (arith, parts, size))
      (rw (m_word, n_word) (omega (arith, parts)))
big_mul_i64_exact (pos m) (negsuc n) ha hb =
    let parts = *ℤ_parts (pos m) (negsuc n) in
    let size = square_bound m (suc n) (omega arith) (omega arith) in
    let m_word : m % 2 ^ 64 ≡ m = omega arith in
    let n_word : 2 ^ 64 - 1 - n % 2 ^ 64 ≡ 2 ^ 64 - suc n = omega arith in
    from_unsigned (pos m) (negsuc n) (pos 0) (pos m) 0 ha hb (omega arith) zero-IsInt64 ha
      (masked-pos m (negsuc n) (omega arith) hb) (masked-negsuc n (pos m) (omega arith) ha)
      (omega (arith, parts, size)) (omega (arith, parts, size))
      (rw (m_word, n_word) (omega (arith, parts, complement m (suc n) (omega arith))))
big_mul_i64_exact (negsuc m) (pos n) ha hb =
    let parts = *ℤ_parts (negsuc m) (pos n) in
    let size = square_bound (suc m) n (omega arith) (omega arith) in
    let m_word : 2 ^ 64 - 1 - m % 2 ^ 64 ≡ 2 ^ 64 - suc m = omega arith in
    let n_word : n % 2 ^ 64 ≡ n = omega arith in
    from_unsigned (negsuc m) (pos n) (pos n) (pos 0) 0 ha hb (omega arith) hb zero-IsInt64
      (masked-negsuc m (pos n) (omega arith) hb) (masked-pos n (negsuc m) (omega arith) ha)
      (omega (arith, parts, size)) (omega (arith, parts, size))
      (rw (m_word, n_word) (omega (arith, parts, complement n (suc m) (omega arith))))
big_mul_i64_exact (negsuc m) (negsuc n) ha hb =
    let parts = *ℤ_parts (negsuc m) (negsuc n) in
    let size = square_bound (suc m) (suc n) (omega arith) (omega arith) in
    let m_word : 2 ^ 64 - 1 - m % 2 ^ 64 ≡ 2 ^ 64 - suc m = omega arith in
    let n_word : 2 ^ 64 - 1 - n % 2 ^ 64 ≡ 2 ^ 64 - suc n = omega arith in
    from_unsigned (negsuc m) (negsuc n) (negsuc n) (negsuc m) 1 ha hb (omega arith) hb ha
      (masked-negsuc m (negsuc n) (omega arith) hb) (masked-negsuc n (negsuc m) (omega arith) ha)
      (omega (arith, parts, size)) (omega (arith, parts, size))
      (rw (m_word, n_word)
        (omega (
          arith,
          parts,
          complement (2 ^ 64 - suc m) (suc n) (omega arith),
          complement (suc n) (suc m) (omega arith),
        )))
