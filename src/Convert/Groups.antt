-- ===== src/Convert/Groups.antt =====
-- Four characters of System/Convert.cpp carry three bytes.
use nuke.Base.{ℕ, ◌+◌, ◌*◌, ◌/◌, ◌%◌, ◌^◌, ◌<◌, ◌≡◌, arith, bit_and}
use nuke.Base.Bits.{bit_and_mask, bit_and_high}
use nuke.Base.Word.{u8}

-- The numbers that the three bytes are cut into.
abbrev pub first_of : ℕ → ℕ
first_of a = bit_and a 0xfc / 2 ^ 2

abbrev pub second_of : ℕ → ℕ → ℕ
second_of a b = bit_and a 0x03 * 2 ^ 4 + bit_and b 0xf0 / 2 ^ 4

abbrev pub third_of : ℕ → ℕ → ℕ
third_of b c = bit_and c 0xc0 / 2 ^ 6 + bit_and b 0x0f * 2 ^ 2

abbrev pub fourth_of : ℕ → ℕ
fourth_of c = bit_and c 0x3f

pub first_of_lem : (a : ℕ) → a < 256 → first_of a ≡ a / 4
first_of_lem a h = omega (arith, bit_and_high 2 a 63, bit_and_mask 6 (a / 4))

pub second_of_lem : (a b : ℕ) → b < 256 → second_of a b ≡ a % 4 * 16 + b / 16
second_of_lem a b h = omega (arith, bit_and_mask 2 a, bit_and_high 4 b 15, bit_and_mask 4 (b / 16))

pub third_of_lem : (b c : ℕ) → c < 256 → third_of b c ≡ b % 16 * 4 + c / 64
third_of_lem b c h = omega (arith, bit_and_mask 4 b, bit_and_high 6 c 3, bit_and_mask 2 (c / 64))

pub fourth_of_lem : (c : ℕ) → fourth_of c ≡ c % 64
fourth_of_lem c = omega (arith, bit_and_mask 6 c)

-- The bytes of `c3` from numbers below 64.
pub group_byte0 :
    (v0 v1 : ℕ) → v1 < 64 → u8 (v0 * 2 ^ 2 + bit_and v1 0x30 / 2 ^ 4) ≡ (v0 * 4 + v1 / 16) % 256
group_byte0 v0 v1 h = omega (arith, bit_and_high 4 v1 3, bit_and_mask 2 (v1 / 16))

pub group_byte1 :
    (v1 v2 : ℕ)
    → v2 < 64
    → u8 (bit_and v1 0xf * 2 ^ 4 + bit_and v2 0x3c / 2 ^ 2) ≡ (v1 % 16 * 16 + v2 / 4) % 256
group_byte1 v1 v2 h =
    omega (arith, bit_and_mask 4 v1, bit_and_high 2 v2 15, bit_and_mask 4 (v2 / 4))

pub group_byte2 : (v2 v3 : ℕ) → u8 (bit_and v2 0x3 * 2 ^ 6 + v3) ≡ (v2 % 4 * 64 + v3) % 256
group_byte2 v2 v3 = omega (arith, bit_and_mask 2 v2)

-- Cutting three bytes and joining the numbers gives the bytes back; the last ones need no whole group.
pub byte0_back :
    (a b v1 : ℕ)
    → a < 256
    → b < 256
    → v1 ≡ second_of a b
    → u8 (first_of a * 2 ^ 2 + bit_and v1 0x30 / 2 ^ 4) ≡ a
byte0_back a b v1 ha hb e = omega (
  arith,
  first_of_lem a ha,
  second_of_lem a b hb,
  group_byte0 (first_of a) v1 (omega (arith, second_of_lem a b hb)),
)

pub byte1_back :
    (a b c v2 : ℕ)
    → a < 256
    → b < 256
    → c < 256
    → v2 ≡ third_of b c
    → u8 (bit_and (second_of a b) 0xf * 2 ^ 4 + bit_and v2 0x3c / 2 ^ 2) ≡ b
byte1_back a b c v2 ha hb hc e = omega (
  arith,
  second_of_lem a b hb,
  third_of_lem b c hc,
  group_byte1 (second_of a b) v2 (omega (arith, third_of_lem b c hc)),
)

pub byte2_back : (b c : ℕ) → c < 256 → u8 (bit_and (third_of b c) 0x3 * 2 ^ 6 + fourth_of c) ≡ c
byte2_back b c hc =
    omega (arith, third_of_lem b c hc, fourth_of_lem c, group_byte2 (third_of b c) (fourth_of c))
