-- ===== src/Convert.antt =====
-- System/Convert.cpp: the Base64 coder and its two wrappers. A char or byte is its unsigned value, as
-- in the masks and table reads of the source.
pub mod Alphabet
pub mod Table
pub mod Groups
pub mod Coding
pub mod Wrappers
pub mod Tests
use nuke.Base.{
  ℕ, zero, suc, ◌+◌, ◌-◌, ◌*◌, ◌/◌, ◌%◌, ◌^◌, Bool, true, false, ◌==◌, ltb, List, [], ◌∷◌, ◌++◌,
  bit_and, if◌then◌else◌, get_or, length, replicate, drop, take,
}
use nuke.Base.Int.{ℤ, pos, negsuc, eqb_ℤ, pos_part}
use nuke.Base.Word.{u8, u64, to_u64}
use nuke.Base.Memory.{index}
use nuke.Convert.Alphabet.{symbol, inverse, no}
use nuke.Base.Result.{Result, ok, throws, throw_if, length_error, undefined, ◌>>=◌, ◌>>◌}

-- '='
abbrev pub padding : ℕ
padding = 61

unfoldable pub encoded_size : ℕ → ℕ
encoded_size n = u64 (4 * (u64 (n + 2) / 3))

unfoldable pub decoded_size : ℕ → ℕ
decoded_size n = n / 4 * 3

-- The four characters of three bytes.
unfoldable pub encode_group : (a b c : ℕ) → List ℕ
encode_group a b c =
    symbol (bit_and a 0xfc / 2 ^ 2)
    ∷ symbol (bit_and a 0x03 * 2 ^ 4 + bit_and b 0xf0 / 2 ^ 4)
    ∷ symbol (bit_and c 0xc0 / 2 ^ 6 + bit_and b 0x0f * 2 ^ 2)
    ∷ symbol (bit_and c 0x3f)
    ∷ []

-- The switch behind the loop: `rest` bytes are left, 0, 1 or 2.
unfoldable pub encode_rest : List ℕ → (rest : ℕ) → Result (List ℕ)
encode_rest src zero = ok []
encode_rest src (suc zero) = do
  a ← index src 0
  ok (symbol (bit_and a 0xfc / 2 ^ 2) ∷ symbol (bit_and a 0x03 * 2 ^ 4) ∷ padding ∷ padding ∷ [])
encode_rest src (suc (suc zero)) = do
  a ← index src 0
  b ← index src 1
  ok (
      symbol (bit_and a 0xfc / 2 ^ 2)
      ∷ symbol (bit_and a 0x03 * 2 ^ 4 + bit_and b 0xf0 / 2 ^ 4)
      ∷ symbol (bit_and b 0x0f * 2 ^ 2)
      ∷ padding
      ∷ [])
encode_rest src (suc (suc (suc rest))) = ok []

-- The loop over `n` groups of three bytes, and what follows it.
unfoldable pub encode_groups : (n rest : ℕ) → List ℕ → Result (List ℕ)
encode_groups zero rest src = encode_rest src rest
encode_groups (suc n) rest src = do
  a ← index src 0
  b ← index src 1
  c ← index src 2
  out ← encode_groups n rest (drop 3 src)
  ok (encode_group a b c ++ out)

-- encode: the characters that it writes to `dest`.
unfoldable pub encode : List ℕ → (len : ℕ) → Result (List ℕ)
encode src len = encode_groups (len / 3) (len % 3) src

-- The array `c4`.
pub record Digits : Type 0 where
  pub d0 : ℕ
  pub d1 : ℕ
  pub d2 : ℕ
  pub d3 : ℕ

-- `c4[i] = v`
unfoldable pub set_digit : Digits → (i value : ℕ) → Digits
set_digit c4 zero value = record { d0 = value; d1 = c4.d1; d2 = c4.d2; d3 = c4.d3 }
set_digit c4 (suc zero) value = record { d0 = c4.d0; d1 = value; d2 = c4.d2; d3 = c4.d3 }
set_digit c4 (suc (suc zero)) value = record { d0 = c4.d0; d1 = c4.d1; d2 = value; d3 = c4.d3 }
set_digit c4 (suc (suc (suc i))) value = record { d0 = c4.d0; d1 = c4.d1; d2 = c4.d2; d3 = value }

-- The array `c3`, computed from `c4`.
unfoldable pub decode_group : Digits → List ℕ
decode_group c4 =
    u8 (c4.d0 * 2 ^ 2 + bit_and c4.d1 0x30 / 2 ^ 4)
    ∷ u8 (bit_and c4.d1 0xf * 2 ^ 4 + bit_and c4.d2 0x3c / 2 ^ 2)
    ∷ u8 (bit_and c4.d2 0x3 * 2 ^ 6 + c4.d3)
    ∷ []

-- The part behind the loop: the first `i - 1` bytes of `c3`, if `i` is not 0.
unfoldable pub decode_rest : (i : ℕ) → Digits → List ℕ
decode_rest i c4 = take (i - 1) (decode_group c4)

-- What decode writes to `dest`, and how many characters it has read.
pub record Decoded : Type 0 where
  pub written : List ℕ
  pub read : ℕ

-- decode from digit number `i` of a group on. `c4` holds what an earlier group left, or what the
-- array held at first.
unfoldable pub decode_from : List ℕ → (i : ℕ) → Digits → Decoded
decode_from [] i c4 = record { written = decode_rest i c4; read = 0 }
decode_from (char ∷ src) i c4 =
    let value = inverse char in
    let digits = set_digit c4 i (pos_part value) in
    let group_ends = suc i == 4 in
    let next = decode_from src (if group_ends then 0 else suc i) digits in
    if char == padding
    then record { written = decode_rest i c4; read = 0 }
    else if eqb_ℤ value no
    then record { written = decode_rest i c4; read = 0 }
    else record {
      written = (if group_ends then decode_group digits else []) ++ next.written;
      read = suc next.read;
    }

-- Bytes written to a buffer of `size` zeros. Writing behind its end is undefined.
unfoldable pub written_to : (size : ℕ) → List ℕ → Result (List ℕ)
written_to size bytes = do
  throw_if (ltb size (length bytes)) undefined
  ok (bytes ++ replicate (size - length bytes) 0)

-- Convert::FromBase64String. `c4` is not initialised.
unfoldable pub from_base64_string : List ℕ → Digits → Result (List ℕ)
from_base64_string s c4 = written_to (decoded_size (length s)) (decode_from s 0 c4).written

-- Convert::ToBase64String. `capacity` is the size that no string exceeds, so that `resize` throws. The
-- offset is not used, and the length that `encode` is given is that of its output.
unfoldable pub to_base64_string : (capacity : ℕ) → List ℕ → (offset length : ℤ) → Result (List ℕ)
to_base64_string capacity in_array offset length = do
  let e_size = encoded_size (to_u64 length)
  throw_if (ltb capacity e_size) length_error
  out ← encode in_array e_size
  written_to e_size out
