-- ===== src/Convert/Table.antt =====
-- The two tables of System/Convert.cpp are inverse to each other.
use nuke.Base.{
  ℕ, zero, suc, ◌<◌, ◌≡◌, refl, arith, Bool, true, false, ◌==◌, ◌&&◌, not, ◌⊎◌, inl, inr,
}
use nuke.Base.Int.{pos, negsuc, eqb_ℤ}
use nuke.Convert.{padding}
use nuke.Convert.Alphabet.{symbol, inverse}

-- A test of all numbers below a bound, for facts that are checked by running them.
all_below : ℕ → (ℕ → Bool) → Bool
all_below zero test = true
all_below (suc n) test = test n && all_below n test

and_parts : (p q : Bool) → (p && q) ≡ true → (p ≡ true) × (q ≡ true)
and_parts true q e = (refl, e)
and_parts false q e = cc

below_suc : (n x : ℕ) → x < suc n → (x ≡ n) ⊎ (x < n)
below_suc n x h = ground arith

all_below_lem :
    (n : ℕ) (test : ℕ → Bool) → all_below n test ≡ true → (x : ℕ) → x < n → test x ≡ true
unfolding all_below
all_below_lem zero test all x h = absurd (omega arith)
all_below_lem (suc n) test all x h =
    let (last, others) = and_parts (test n) (all_below n test) all in
    elim (below_suc n x h) [
      | inl is_last ↦ rw is_last last
      | inr below ↦ all_below_lem n test others x below
    ]

is_digit : ℕ → Bool
is_digit v = eqb_ℤ (inverse (symbol v)) (pos v) && not (symbol v == padding)

all_digits : all_below 64 is_digit ≡ true
unfolding all_below is_digit inverse symbol
all_digits = refl

-- `char` is the character of the number `value`.
abbrev pub IsSymbol : (char value : ℕ) → Type 0
IsSymbol char value =
    (inverse char ≡ pos value)
    × ((char == padding) ≡ false)
    × (eqb_ℤ (pos value) (negsuc 0) ≡ false)

pub symbol-IsSymbol : (v : ℕ) → v < 64 → IsSymbol (symbol v) v
unfolding is_digit
symbol-IsSymbol v h =
    let (found, no_padding) =
      and_parts (eqb_ℤ (inverse (symbol v)) (pos v)) _ (all_below_lem 64 is_digit all_digits v h) in
    (ground arith, ground arith, ground arith)
