-- ===== src/Numeric/WideProduct.antt =====
-- The portable 128-bit multiplication `BigMul(uint64_t, uint64_t, uint64_t&)`.
use nuke.Base.{ℕ, ◌+◌, ◌-◌, ◌*◌, ◌/◌, ◌%◌, ◌^◌, ◌≤◌, ◌<◌, ◌≡◌, arith, bit_or}
use nuke.Base.Bits.{bit_or-fields, bit_or-zero, zero-bit_or}
use nuke.Base.Word.{u32, u64}
use native.Mathlib.Nat.{mul-le-mul_left, mul-le-mul_right}
use mathlib.Core.Path.{ap₂, ◌∙◌}
use nuke.Numeric.{big_mul_u64}

the_le : (a : ℕ) → a < 2 ^ 32 → a ≤ 2 ^ 32 - 1
the_le a ha = omega arith

-- A product of two 32-bit halves leaves room for two carries in a word.
half_product : (a b : ℕ) → a < 2 ^ 32 → b < 2 ^ 32 → a * b ≤ (2 ^ 32 - 1) * (2 ^ 32 - 1)
half_product a b ha hb =
    omega (arith, mul-le-mul_right b (the_le a ha), mul-le-mul_left (2 ^ 32 - 1) (the_le b hb))

abbrev high_half : ℕ → ℕ → ℕ → ℕ → ℕ
high_half w x y z =
    let t = u64 (u64 x + u64 w / 2 ^ 32) in
    u64 (u64 (u64 z + t / 2 ^ 32) + u64 (u64 y + u32 t) / 2 ^ 32)

abbrev low_half : ℕ → ℕ → ℕ → ℕ
low_half w x y =
    let t = u64 (u64 x + u64 w / 2 ^ 32) in u64 (u64 (u64 y + u32 t) * 2 ^ 32) + u32 (u64 w)

carries :
    (w x y z : ℕ)
    → w ≤ (2 ^ 32 - 1) * (2 ^ 32 - 1)
    → x ≤ (2 ^ 32 - 1) * (2 ^ 32 - 1)
    → y ≤ (2 ^ 32 - 1) * (2 ^ 32 - 1)
    → z ≤ (2 ^ 32 - 1) * (2 ^ 32 - 1)
    → high_half w x y z * 2 ^ 64 + low_half w x y ≡ z * 2 ^ 64 + (x + y) * 2 ^ 32 + w
carries w x y z hw hx hy hz = omega arith

halves : (a : ℕ) → a < 2 ^ 64 → a ≡ u32 (a / 2 ^ 32) * 2 ^ 32 + u32 a
halves a ha = omega arith

expand :
    (p q r s : ℕ)
    → (p * 2 ^ 32 + q) * (r * 2 ^ 32 + s) ≡ (p * r) * 2 ^ 64 + (p * s + q * r) * 2 ^ 32 + q * s
expand p q r s = omega arith

-- The low word, joined by `|` from two 32-bit fields.
joined : (t r : ℕ) → r < 2 ^ 32 → bit_or (u64 (t * 2 ^ 32)) r ≡ u64 (t * 2 ^ 32) + r
joined t r h =
    let shifted : u64 (t * 2 ^ 32) ≡ t % 2 ^ 32 * 2 ^ 32 + 0 = omega arith in
    let right : r ≡ 0 * 2 ^ 32 + r = omega arith in
    ap₂ bit_or shifted right
    ∙ bit_or-fields 32 (t % 2 ^ 32) 0 0 r (omega arith) h
    ∙ omega (arith, bit_or-zero (t % 2 ^ 32), zero-bit_or r)

-- For two 64-bit words the high half that `BigMul` returns and the low one that it stores make up
-- their exact product.
pub big_mul_u64_exact :
    (a b : ℕ)
    → a < 2 ^ 64
    → b < 2 ^ 64
    → ((big_mul_u64 a b).high * 2 ^ 64 + (big_mul_u64 a b).low ≡ a * b)
      × ((big_mul_u64 a b).low < 2 ^ 64)
unfolding big_mul_u64
big_mul_u64_exact a b ha hb =
    let ah = u32 (a / 2 ^ 32) in
    let al = u32 a in
    let bh = u32 (b / 2 ^ 32) in
    let bl = u32 b in
    let w_le = half_product al bl (omega arith) (omega arith) in
    let x_le = half_product ah bl (omega arith) (omega arith) in
    let y_le = half_product al bh (omega arith) (omega arith) in
    let z_le = half_product ah bh (omega arith) (omega arith) in
    let sums = carries (al * bl) (ah * bl) (al * bh) (ah * bh) w_le x_le y_le z_le in
    let t = u64 (u64 (ah * bl) + u64 (al * bl) / 2 ^ 32) in
    let low = joined (u64 (u64 (al * bh) + u32 t)) (u32 (u64 (al * bl))) (omega arith) in
    let product = ap₂ ◌*◌ (halves a ha) (halves b hb) ∙ expand ah al bh bl in
    (omega (arith, sums, low, product), omega (arith, low))
