-- ===== src/Base/Bits.antt =====
-- The bitwise operations as arithmetic. `Prim` defines them by a recursion on binary digits that
-- takes its first argument as fuel; here the fuel is dropped, and masks become remainders.
use Prim.Native.Nat.{
  ℕ, zero, suc, ◌+◌, ◌-◌, ◌*◌, ◌/◌, ◌%◌, ◌^◌, ◌≤◌, ◌<◌, min, max, bit_and, bit_or, digits,
  bit_and-bitwise, bit_or-bitwise,
}
use mathlib.Core.Path.{◌≡◌, refl, ap}
use native.Mathlib.Omega.{arith}
use native.Mathlib.Nat.{pow-suc, one-le-pow}

module _ (rest : ℕ → ℕ) (digit : ℕ → ℕ → ℕ) where
  -- Any fuel that is not below the first argument gives the same number.
  fuel_irrelevant :
      (k l x y : ℕ) → x ≤ k → x ≤ l → digits rest digit k x y ≡ digits rest digit l x y
  fuel_irrelevant zero zero zero y hk hl = refl
  fuel_irrelevant zero (suc l) zero y hk hl = refl
  fuel_irrelevant (suc k) zero zero y hk hl = refl
  fuel_irrelevant (suc k) (suc l) zero y hk hl = refl
  fuel_irrelevant zero l (suc x) y hk hl = absurd (omega arith)
  fuel_irrelevant (suc k) zero (suc x) y hk hl = absurd (omega arith)
  fuel_irrelevant (suc k) (suc l) (suc x) y hk hl =
      omega (arith, fuel_irrelevant k l (suc x / 2) (y / 2) (omega arith) (omega arith))

pub bit_and_step : (x y : ℕ) → bit_and x y ≡ 2 * bit_and (x / 2) (y / 2) + min (x % 2) (y % 2)
bit_and_step zero y = omega (arith, bit_and-bitwise 0 y, bit_and-bitwise 0 (y / 2))
bit_and_step (suc x) y = omega (
  arith,
  bit_and-bitwise (suc x) y,
  bit_and-bitwise (suc x / 2) (y / 2),
  fuel_irrelevant (λ _. zero) min x (suc x / 2) (suc x / 2) (y / 2) (omega arith) (omega arith),
)

pub bit_or_step : (x y : ℕ) → bit_or x y ≡ 2 * bit_or (x / 2) (y / 2) + max (x % 2) (y % 2)
bit_or_step zero y = omega (arith, bit_or-bitwise 0 y, bit_or-bitwise 0 (y / 2))
bit_or_step (suc x) y = omega (
  arith,
  bit_or-bitwise (suc x) y,
  bit_or-bitwise (suc x / 2) (y / 2),
  fuel_irrelevant (λ m. m) max x (suc x / 2) (suc x / 2) (y / 2) (omega arith) (omega arith),
)

-- Both operations work on a high and a low field apart.
pub bit_and-fields :
    (k a b r s : ℕ)
    → r < 2 ^ k
    → s < 2 ^ k
    → bit_and (a * 2 ^ k + r) (b * 2 ^ k + s) ≡ bit_and a b * 2 ^ k + bit_and r s
bit_and-fields zero a b r s hr hs =
    let r_zero : r ≡ 0 = omega arith in
    let s_zero : s ≡ 0 = omega arith in rw (r_zero, s_zero) (ground (arith, bit_and_step 0 0))
bit_and-fields (suc k) a b r s hr hs = ground (
  arith,
  bit_and_step (a * 2 ^ suc k + r) (b * 2 ^ suc k + s),
  bit_and_step r s,
  pow-suc 2 k,
  ap (λ (t : ℕ). a * t) (pow-suc 2 k),
  ap (λ (t : ℕ). b * t) (pow-suc 2 k),
  ap (λ (t : ℕ). bit_and a b * t) (pow-suc 2 k),
  bit_and-fields k a b (r / 2) (s / 2),
)

pub bit_or-fields :
    (k a b r s : ℕ)
    → r < 2 ^ k
    → s < 2 ^ k
    → bit_or (a * 2 ^ k + r) (b * 2 ^ k + s) ≡ bit_or a b * 2 ^ k + bit_or r s
bit_or-fields zero a b r s hr hs =
    let r_zero : r ≡ 0 = omega arith in
    let s_zero : s ≡ 0 = omega arith in rw (r_zero, s_zero) (ground (arith, bit_or_step 0 0))
bit_or-fields (suc k) a b r s hr hs = ground (
  arith,
  bit_or_step (a * 2 ^ suc k + r) (b * 2 ^ suc k + s),
  bit_or_step r s,
  pow-suc 2 k,
  ap (λ (t : ℕ). a * t) (pow-suc 2 k),
  ap (λ (t : ℕ). b * t) (pow-suc 2 k),
  ap (λ (t : ℕ). bit_or a b * t) (pow-suc 2 k),
  bit_or-fields k a b (r / 2) (s / 2),
)

-- A word below `n` loses nothing to fuel `n`; so a zero on either side is absorbed.
bit_and_zero_below : (n x : ℕ) → x ≤ n → bit_and x 0 ≡ 0
bit_and_zero_below n zero h = refl
bit_and_zero_below zero (suc x) h = absurd (omega arith)
bit_and_zero_below (suc n) (suc x) h =
    omega (arith, bit_and_step (suc x) 0, bit_and_zero_below n (suc x / 2) (omega arith))

pub bit_and-zero : (x : ℕ) → bit_and x 0 ≡ 0
bit_and-zero x = bit_and_zero_below x x (omega arith)

bit_or_zero_below : (n x : ℕ) → x ≤ n → bit_or x 0 ≡ x
bit_or_zero_below n zero h = refl
bit_or_zero_below zero (suc x) h = absurd (omega arith)
bit_or_zero_below (suc n) (suc x) h =
    omega (arith, bit_or_step (suc x) 0, bit_or_zero_below n (suc x / 2) (omega arith))

pub bit_or-zero : (x : ℕ) → bit_or x 0 ≡ x
bit_or-zero x = bit_or_zero_below x x (omega arith)

pub zero-bit_or : (x : ℕ) → bit_or 0 x ≡ x
zero-bit_or x = bit_or-bitwise 0 x

pub zero-bit_and : (x : ℕ) → bit_and 0 x ≡ 0
zero-bit_and x = bit_and-bitwise 0 x

bit_and_ones : (k r : ℕ) → r < 2 ^ k → bit_and r (2 ^ k - 1) ≡ r
bit_and_ones zero r h =
    let r_zero : r ≡ 0 = omega arith in rw r_zero (ground (arith, bit_and_step 0 0))
bit_and_ones (suc k) r h =
    ground
      (arith, bit_and_step r (2 ^ suc k - 1), pow-suc 2 k, one-le-pow k 2, bit_and_ones k (r / 2))

-- A mask of `k` ones is the remainder by `2 ^ k`.
pub bit_and_mask : (k x : ℕ) → bit_and x (2 ^ k - 1) ≡ x % 2 ^ k
bit_and_mask k x = ground (
  arith,
  one-le-pow k 2,
  bit_and-fields k (x / 2 ^ k) 0 (x % 2 ^ k) (2 ^ k - 1),
  bit_and-zero (x / 2 ^ k),
  bit_and_ones k (x % 2 ^ k),
)

-- A mask whose low `k` bits are zero reads the high field.
pub bit_and_high : (k x c : ℕ) → bit_and x (c * 2 ^ k) ≡ bit_and (x / 2 ^ k) c * 2 ^ k
bit_and_high k x c =
    ground (
      arith,
      one-le-pow k 2,
      bit_and-fields k (x / 2 ^ k) c (x % 2 ^ k) 0,
      bit_and-zero (x % 2 ^ k),
    )

-- A field placed above `k` low bits is added.
pub bit_or_high : (k r c : ℕ) → r < 2 ^ k → bit_or r (c * 2 ^ k) ≡ c * 2 ^ k + r
bit_or_high k r c h =
    ground (arith, one-le-pow k 2, bit_or-fields k 0 c r 0, bit_or-zero r, zero-bit_or c)

pub bit_or_three : (x : ℕ) → bit_or x 3 ≡ x / 4 * 4 + 3
bit_or_three x = omega (arith, bit_or_step x 3, bit_or_step (x / 2) 1, bit_or-zero (x / 2 / 2))
