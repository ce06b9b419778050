-- ===== src/Text/Numbers.antt =====
-- `std::stoi`, `std::stol` and `std::stoul`: a number at the start of a text, behind white space.
use nuke.Base.{
  ℕ, ◌+◌, ◌-◌, ◌*◌, ◌==◌, ◌^◌, Bool, ◌&&◌, ◌||◌, List, [], ◌∷◌, if◌then◌else◌, ltb, leb,
}
use nuke.Base.Int.{ℤ, pos, neg_ℤ, pos_part, neg_part}
use nuke.Base.Word.{to_u64}
use nuke.Base.Result.{Result, ok, throws, invalid_argument, out_of_range, ◌>>=◌}

abbrev pub is_space : ℕ → Bool
is_space c = (c == 32) || (leb 9 c && leb c 13)

abbrev pub is_digit : ℕ → Bool
is_digit c = leb b'0' c && leb c b'9'

-- The number that the digits at the start go on from `n` to.
abbrev pub digits_from : (n : ℕ) → List ℕ → ℕ
digits_from n [] = n
digits_from n (c ∷ cs) =
    let more = digits_from (n * 10 + (c - b'0')) cs in if is_digit c then more else n

abbrev pub unsigned : List ℕ → Result ℕ
unsigned [] = throws invalid_argument
unsigned (c ∷ cs) = if is_digit c then ok (digits_from 0 (c ∷ cs)) else throws invalid_argument

abbrev signed_at : List ℕ → Result ℤ
signed_at [] = throws invalid_argument
signed_at (c ∷ cs) =
    if c == b'-'
    then unsigned cs >>= (λ n. ok (neg_ℤ (pos n)))
    else if c == b'+'
    then unsigned cs >>= (λ n. ok (pos n))
    else unsigned (c ∷ cs) >>= (λ n. ok (pos n))

abbrev pub skip_space : List ℕ → List ℕ
skip_space [] = []
skip_space (c ∷ cs) = let rest = skip_space cs in if is_space c then rest else c ∷ cs

abbrev pub number : List ℕ → Result ℤ
number text = signed_at (skip_space text)

abbrev pub in_range : (positive negative : ℕ) → ℤ → Bool
in_range positive negative z = ltb (pos_part z) positive && leb (neg_part z) negative

unfoldable pub stoi : List ℕ → Result ℤ
stoi text =
    number text >>= (λ z. if in_range (2 ^ 31) (2 ^ 31) z then ok z else throws out_of_range)

unfoldable pub stol : List ℕ → Result ℤ
stol text =
    number text >>= (λ z. if in_range (2 ^ 63) (2 ^ 63) z then ok z else throws out_of_range)

-- A minus sign is taken, and the number wraps around.
unfoldable pub stoul : List ℕ → Result ℕ
stoul text =
    number text
    >>= (λ z. if in_range (2 ^ 64) (2 ^ 64 - 1) z then ok (to_u64 z) else throws out_of_range)
