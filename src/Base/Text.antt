-- ===== src/Base/Text.antt =====
-- Strings as lists of bytes: the searches and pieces of `std::string`, and lines of a stream.
use Prim.Native.Nat.{ℕ, zero, suc, ◌+◌, ◌-◌, ◌*◌, ◌/◌, ◌%◌, ◌^◌, ◌≤◌, ◌<◌}
use mathlib.Core.Path.{◌≡◌, refl, ap, sym, ◌∙◌}
use mathlib.Core.Logic.{◌≢◌, inl, inr}
use mathlib.Core.Bool.{false}
use mathlib.Core.List.{List, [], ◌∷◌, ◌++◌}
use mathlib.Core.Option.{Option, none, some}
use native.Mathlib.Omega.{arith}
use nuke.Base.Int.{ℤ, pos, negsuc}
use nuke.Base.Tests.{ltb, Bool-cases, lt→ltb, ◌==◌, if◌then◌else◌, ==_refl}
use nuke.Base.Lists.{
  drop-add, length-append, length, replicate, take, drop, append_assoc, append_nil,
}

abbrev pub plus : ℕ → Option ℕ → Option ℕ
plus n none = none
plus n (some i) = some (n + i)

-- The index of the first `c`.
unfoldable pub find : ℕ → List ℕ → Option ℕ
find c [] = none
find c (x ∷ xs) = let rest = find c xs in if x == c then some 0 else plus 1 rest

-- `s.find(c, from)`, for an index within the string.
unfoldable pub find_from : ℕ → List ℕ → ℕ → Option ℕ
find_from c s from = plus from (find c (drop from s))

-- `s.substr(start, count)` for an index within the string, and `s.substr(start)`.
abbrev pub substr : List ℕ → ℕ → ℕ → List ℕ
substr s start count = take count (drop start s)

abbrev pub substr_to_end : List ℕ → ℕ → List ℕ
substr_to_end s start = drop start s

-- The lines that `std::getline` reads up to an end of line; what follows the last one is left over.
unfoldable pub ended_lines : (line : List ℕ) → List ℕ → List (List ℕ)
ended_lines line [] = []
ended_lines line (x ∷ xs) =
    let at_end = ended_lines [] xs in
    let goes_on = ended_lines (line ++ x ∷ []) xs in if x == 10 then line ∷ at_end else goes_on

-- The byte is not in the list.
abbrev pub IsFreeOf : ℕ → List ℕ → Type 0
IsFreeOf c [] = Unit
IsFreeOf c (x ∷ xs) = (x ≢ c) × IsFreeOf c xs

pub ==_differs : (x c : ℕ) → x ≢ c → (x == c) ≡ false
==_differs x c differ = ground (arith, differ)

one_add : (n : ℕ) → 1 + n ≡ suc n
one_add n = omega arith

pub find-IsFreeOf : (c : ℕ) (xs : List ℕ) → IsFreeOf c xs → find c xs ≡ none
unfolding find
find-IsFreeOf c [] absent = refl
find-IsFreeOf c (x ∷ xs) (differ, absent) =
    rw (==_differs x c differ) (rw (find-IsFreeOf c xs absent) refl)

pub find-first : (c : ℕ) (xs ys : List ℕ) → IsFreeOf c xs → find c (xs ++ c ∷ ys) ≡ some (length xs)
unfolding find
find-first c [] ys absent = rw (==_refl c) refl
find-first c (x ∷ xs) ys (differ, absent) =
    rw (==_differs x c differ)
      (rw (find-first c xs ys absent) (ap (λ (n : ℕ). some n) (one_add (length xs))))

pub drop-length : (xs ys : List ℕ) → drop (length xs) (xs ++ ys) ≡ ys
drop-length [] ys = refl
drop-length (x ∷ xs) ys = drop-length xs ys

pub take-length : (xs ys : List ℕ) → take (length xs) (xs ++ ys) ≡ xs
take-length [] ys = refl
take-length (x ∷ xs) ys = ap (λ (t : List ℕ). x ∷ t) (take-length xs ys)

-- Lines in front of a text that has no end of line.
pub ended_lines-line :
    (line xs ys : List ℕ)
    → IsFreeOf 10 xs
    → ended_lines line (xs ++ 10 ∷ ys) ≡ (line ++ xs) ∷ ended_lines [] ys
unfolding ended_lines
ended_lines-line line [] ys absent =
    ap (λ (t : List ℕ). t ∷ ended_lines [] ys) (sym (append_nil line))
ended_lines-line line (x ∷ xs) ys (differ, absent) = rw (==_differs x 10 differ) (
    ended_lines-line (line ++ x ∷ []) xs ys absent
    ∙ ap (λ (t : List ℕ). t ∷ ended_lines [] ys) (append_assoc line (x ∷ []) xs))

pub ended_lines-unended : (line xs : List ℕ) → IsFreeOf 10 xs → ended_lines line xs ≡ []
unfolding ended_lines
ended_lines-unended line [] absent = refl
ended_lines-unended line (x ∷ xs) (differ, absent) =
    rw (==_differs x 10 differ) (ended_lines-unended (line ++ x ∷ []) xs absent)

-- "%d" of an int32_t, which has ten digits at most.
unfoldable pub digits_at : (fuel n : ℕ) → List ℕ
digits_at zero n = []
digits_at (suc fuel) n =
    let front = digits_at fuel (n / 10) in
    let last = (b'0' + n % 10) ∷ [] in if ltb n 10 then last else front ++ last

unfoldable pub decimal : ℤ → List ℕ
decimal (pos n) = digits_at 10 n
decimal (negsuc n) = b'-' ∷ digits_at 10 (suc n)

-- "%02d" and its like: zeros in front of the digits, up to the width.
unfoldable pub padded : (width : ℕ) → ℤ → List ℕ
padded width (pos n) = let ds = digits_at 10 n in replicate (width - length ds) b'0' ++ ds
padded width (negsuc n) =
    let ds = digits_at 10 (suc n) in b'-' ∷ (replicate (width - 1 - length ds) b'0' ++ ds)

-- The number that digits are read as.
abbrev pub value_from : (n : ℕ) → List ℕ → ℕ
value_from n [] = n
value_from n (c ∷ cs) = value_from (n * 10 + (c - b'0')) cs

value_from-append :
    (n : ℕ) (xs ys : List ℕ) → value_from n (xs ++ ys) ≡ value_from (value_from n xs) ys
value_from-append n [] ys = refl
value_from-append n (x ∷ xs) ys = value_from-append (n * 10 + (x - b'0')) xs ys

power_suc : (n : ℕ) → 10 ^ suc n ≡ 10 * 10 ^ n
power_suc n = grind arith

value_from-digits_at : (fuel n : ℕ) → n < 10 ^ fuel → value_from 0 (digits_at fuel n) ≡ n
unfolding digits_at
value_from-digits_at zero n below = omega (arith, below)
value_from-digits_at (suc fuel) n below = elim (Bool-cases (ltb n 10)) [
  | inl e ↦ rw (e) (ground (arith, e))
  | inr e ↦ rw (e) (
      value_from-append 0 (digits_at fuel (n / 10)) ((b'0' + n % 10) ∷ [])
      ∙ rw (value_from-digits_at fuel (n / 10) (omega (arith, below, power_suc fuel)))
          (omega arith))
]

value_from-zeros : (k : ℕ) (xs : List ℕ) → value_from 0 (replicate k b'0' ++ xs) ≡ value_from 0 xs
value_from-zeros zero xs = refl
value_from-zeros (suc k) xs = value_from-zeros k xs

length-digits_at :
    (fuel width n : ℕ) → n < 10 ^ width → 0 < width → length (digits_at fuel n) ≤ width
unfolding digits_at
length-digits_at zero width n below positive = omega arith
length-digits_at (suc fuel) zero n below positive = absurd (omega (arith, positive))
length-digits_at (suc fuel) (suc zero) n below positive =
    rw (lt→ltb n 10 (omega (arith, below))) (omega arith)
length-digits_at (suc fuel) (suc (suc w)) n below positive = elim (Bool-cases (ltb n 10)) [
  | inl e ↦ rw (e) (omega arith)
  | inr e ↦ rw (e) (
      omega (
        arith,
        length-append (digits_at fuel (n / 10)) ((b'0' + n % 10) ∷ []),
        length-digits_at fuel (suc w) (n / 10) (omega (arith, below, power_suc (suc w)))
            (omega arith),
      ))
]

length-replicate : (k : ℕ) (x : ℕ) → length (replicate k x) ≡ k
length-replicate zero x = refl
length-replicate (suc k) x = omega (arith, length-replicate k x)

-- A number of at most so many digits fills the width exactly, and is read back.
pub length-padded :
    (width n : ℕ) → n < 10 ^ width → 0 < width → length (padded width (pos n)) ≡ width
unfolding padded
length-padded width n below positive = omega (
  arith,
  length-append (replicate (width - length (digits_at 10 n)) b'0') (digits_at 10 n),
  length-replicate (width - length (digits_at 10 n)) b'0',
  length-digits_at 10 width n below positive,
)

pub value_from-padded : (width n : ℕ) → n < 10 ^ 10 → value_from 0 (padded width (pos n)) ≡ n
unfolding padded
value_from-padded width n below =
    value_from-zeros (width - length (digits_at 10 n)) (digits_at 10 n)
    ∙ value_from-digits_at 10 n below

-- The number that stands at a place of a text.
abbrev pub number_at : (text : List ℕ) (start count : ℕ) → ℕ
number_at text start count = value_from 0 (substr text start count)

pub number_at-padded :
    (back : List ℕ) (width n : ℕ)
    → n < 10 ^ width
    → 0 < width
    → n < 10 ^ 10
    → number_at (padded width (pos n) ++ back) 0 width ≡ n
number_at-padded back width n below positive small =
    ap (λ (k : ℕ). value_from 0 (take k (padded width (pos n) ++ back)))
      (sym (length-padded width n below positive))
    ∙ rw (take-length (padded width (pos n)) back) (value_from-padded width n small)

-- A place behind a padded number.
pub substr-behind :
    (back : List ℕ) (width n start count : ℕ)
    → n < 10 ^ width
    → 0 < width
    → substr (padded width (pos n) ++ back) (width + start) count ≡ substr back start count
substr-behind back width n start count below positive =
    ap (λ (k : ℕ). take count (drop (k + start) (padded width (pos n) ++ back)))
      (sym (length-padded width n below positive))
    ∙ rw (drop-add (length (padded width (pos n))) start (padded width (pos n) ++ back))
        (rw (drop-length (padded width (pos n)) back) refl)
