-- ===== src/Base/Floating.antt =====
-- C++'s `double`, which the library computes with and does not implement: its operations as a
-- parameter. `exact` is one such value, whole numbers with a number that is none.
use nuke.Base.Int.{ℤ, pos, negsuc, ◌+ℤ◌, ◌*ℤ◌, ltb_ℤ, eqb_ℤ, quot_ℤ, neg_part, pos_part, neg_ℤ}
use Prim.Native.Nat.{suc, ◌-◌, ◌^◌, ◌≤◌}
use native.Mathlib.Omega.{arith}
use mathlib.Core.Path.{◌≡◌, refl}
use mathlib.Core.Bool.{Bool, true, false, not}
use mathlib.Core.Option.{Option, none, some}

pub record Floating : Type 1 where
  pub Double : Type 0
  pub of_int : ℤ → Double
  pub half : Double
  pub minus_half : Double
  pub is_nan : Double → Bool
  pub less : Double → Double → Bool
  pub less_equal : Double → Double → Bool
  pub equal : Double → Double → Bool
  pub add : Double → Double → Double
  pub mul : Double → Double → Double
  pub div : Double → Double → Double
  pub round : Double → Double
  -- The cast to an integer, which cuts the fraction off.
  pub truncate : Double → ℤ

abbrev compare_by : (ℤ → ℤ → Bool) → Option ℤ → Option ℤ → Bool
compare_by test (some a) (some b) = test a b
compare_by test _ _ = false

abbrev lift : (ℤ → ℤ → ℤ) → Option ℤ → Option ℤ → Option ℤ
lift f (some a) (some b) = some (f a b)
lift f _ _ = none

abbrev truncate_exact : Option ℤ → ℤ
truncate_exact (some a) = a
truncate_exact none = pos 0

abbrev is_none : Option ℤ → Bool
is_none none = true
is_none (some a) = false

abbrev quotient : ℤ → ℤ → ℤ
quotient a (pos k) = quot_ℤ a k
quotient a (negsuc k) = neg_ℤ (quot_ℤ a (suc k))

abbrev pub exact : Floating
exact = record {
  Double = Option ℤ;
  of_int = some;
  half = some (pos 0);
  minus_half = some (pos 0);
  is_nan = is_none;
  less = compare_by ltb_ℤ;
  less_equal = compare_by (λ a b. not (ltb_ℤ b a));
  equal = compare_by eqb_ℤ;
  add = lift ◌+ℤ◌;
  mul = lift ◌*ℤ◌;
  div = lift quotient;
  round = λ x. x;
  truncate = truncate_exact;
}

-- Far inside of the whole numbers that a double holds exactly.
abbrev pub IsSmall : ℤ → Type 0
IsSmall z = (pos_part z ≤ 1000000) × (neg_part z ≤ 1000000)

-- The whole numbers up to 2 ^ 53, all of which a double holds.
abbrev pub IsWhole : ℤ → Type 0
IsWhole z = (pos_part z ≤ 2 ^ 53) × (neg_part z ≤ 2 ^ 53)

-- A double computes exactly with such numbers, and orders them against the ends of an int64_t,
-- although it does not hold the larger end.
pub record IsExact (F : Floating) : Type 0 where
  pub sum :
      (a b : ℤ) → IsSmall a → IsSmall b → F.truncate (F.add (F.of_int a) (F.of_int b)) ≡ a +ℤ b
  pub product :
      (a b : ℤ)
      → IsWhole a
      → IsWhole b
      → IsWhole (a *ℤ b)
      → F.mul (F.of_int a) (F.of_int b) ≡ F.of_int (a *ℤ b)
  pub whole : (a : ℤ) → IsWhole a → F.truncate (F.of_int a) ≡ a
  pub rounded : (a : ℤ) → IsWhole a → F.round (F.of_int a) ≡ F.of_int a
  pub order : (a b : ℤ) → IsSmall a → IsSmall b → F.less (F.of_int a) (F.of_int b) ≡ ltb_ℤ a b
  pub is_number : (a : ℤ) → F.is_nan (F.of_int a) ≡ false
  pub below_end : (a : ℤ) → IsWhole a → F.less (F.of_int (pos (2 ^ 63 - 1))) (F.of_int a) ≡ false
  pub above_end : (a : ℤ) → IsWhole a → F.less (F.of_int a) (F.of_int (negsuc (2 ^ 63 - 1))) ≡ false
  pub not_end : (a : ℤ) → IsWhole a → F.equal (F.of_int a) (F.of_int (pos (2 ^ 63 - 1))) ≡ false

pub exact-IsExact : IsExact exact
exact-IsExact = record {
  sum = λ a b _ _. refl;
  product = λ a b _ _ _. refl;
  whole = λ a _. refl;
  rounded = λ a _. refl;
  order = λ a b _ _. refl;
  is_number = λ a. refl;
  below_end = λ a h. ground arith;
  above_end = λ a h. ground arith;
  not_end = λ a h. ground arith;
}
