-- ===== src/Convert/Tests.antt =====
-- Runs of the Base64 coder, and its theorems at concrete values.
use nuke.Base.{ℕ, ◌^◌, ◌≡◌, refl, arith, List, [], ◌∷◌, ◌++◌, replicate}
use nuke.Base.Int.{pos}
use nuke.Base.Result.{ok, throws, undefined}
use nuke.Convert.{
  Digits, encode, encode_groups, encode_rest, encode_group, decode_from, decode_rest, set_digit,
  decode_group, from_base64_string, to_base64_string,
}
use nuke.Convert.Alphabet.{symbol, inverse}
use nuke.Base.Memory.{index}
use nuke.Convert.Coding.{Codes, encode-Codes}
use nuke.Convert.Wrappers.{from_base64_string-encode, to_base64_string_undefined}

-- "Nuke!" and its encoding "TnVrZSE=".
abbrev text : List ℕ
text = 78 ∷ 117 ∷ 107 ∷ 101 ∷ 33 ∷ []

abbrev encoded : List ℕ
encoded = 84 ∷ 110 ∷ 86 ∷ 114 ∷ 90 ∷ 83 ∷ 69 ∷ 61 ∷ []

abbrev garbage : Digits
garbage = record { d0 = 1; d1 = 2; d2 = 3; d3 = 4 }

runs :
    (encode text 5 ≡ ok encoded)
    × ((decode_from encoded 0 garbage).written ≡ text)
    × ((decode_from encoded 0 garbage).read ≡ 7)
unfolding encode encode_groups encode_rest encode_group symbol index decode_from decode_rest
    set_digit inverse decode_group
runs = (refl, refl, refl)

encode-Codes_example : Codes (encode text 5) 8 garbage text
encode-Codes_example = encode-Codes text garbage (ground arith)

from_base64_string-encode_example : from_base64_string encoded garbage ≡ ok (text ++ replicate 1 0)
unfolding encode encode_groups encode_rest encode_group symbol index
from_base64_string-encode_example =
    from_base64_string-encode text encoded garbage (ground arith) refl

to_base64_string_undefined_example :
    to_base64_string (2 ^ 62) text (pos 0) (pos 5) ≡ throws undefined
to_base64_string_undefined_example =
    to_base64_string_undefined (2 ^ 62) text (pos 0) 5 (omega arith) (omega arith) (omega arith)
