-- ===== src/Convert/Coding.antt =====
-- `decode` undoes `encode`, whatever the arrays of `decode` hold at first.
use nuke.Base.{
  ℕ, zero, suc, ◌+◌, ◌*◌, ◌/◌, ◌%◌, ◌^◌, ◌<◌, ◌≡◌, refl, arith, ◌==◌, bit_and, List, [], ◌∷◌, ◌++◌,
  ap, length, if◌then◌else◌, take, ◌∙◌,
}
use mathlib.Core.Path.{ap₂}
use nuke.Base.Memory.{index, AllBytes}
use nuke.Base.Result.{Result, ok}
use nuke.Convert.{
  Digits, decode_group, decode_from, decode_rest, set_digit, encode, encode_groups, encode_group,
  encode_rest, padding,
}
use nuke.Convert.Alphabet.{symbol}
use nuke.Convert.Table.{symbol-IsSymbol}
use nuke.Convert.Groups.{
  first_of, second_of, third_of, fourth_of, first_of_lem, second_of_lem, third_of_lem,
  fourth_of_lem, byte0_back, byte1_back, byte2_back,
}

-- One step of the loop.
pub decode_from-symbol :
    (v : ℕ) (src : List ℕ) (i : ℕ) (c4 : Digits)
    → v < 64
    → decode_from (symbol v ∷ src) i c4 ≡ record {
      written =
          (if suc i == 4 then decode_group (set_digit c4 i v) else [])
          ++ (decode_from src (if suc i == 4 then 0 else suc i) (set_digit c4 i v)).written;
      read = suc (decode_from src (if suc i == 4 then 0 else suc i) (set_digit c4 i v)).read;
    }
unfolding decode_from
decode_from-symbol v src i c4 h =
    let (found, no_padding, no_end) = symbol-IsSymbol v h in rw (found, no_padding, no_end) refl

abbrev pub digits_of : (v0 v1 v2 v3 : ℕ) → Digits
digits_of v0 v1 v2 v3 = record { d0 = v0; d1 = v1; d2 = v2; d3 = v3 }

decode_from-group :
    (v0 v1 v2 v3 : ℕ) (src : List ℕ) (c4 : Digits)
    → v0 < 64
    → v1 < 64
    → v2 < 64
    → v3 < 64
    → (decode_from (symbol v0 ∷ symbol v1 ∷ symbol v2 ∷ symbol v3 ∷ src) 0 c4).written
      ≡ decode_group (digits_of v0 v1 v2 v3) ++ (decode_from src 0 (digits_of v0 v1 v2 v3)).written
unfolding set_digit
decode_from-group v0 v1 v2 v3 src c4 h0 h1 h2 h3 =
    rw
      (
        decode_from-symbol v0 (symbol v1 ∷ symbol v2 ∷ symbol v3 ∷ src) 0 c4 h0,
        decode_from-symbol v1 (symbol v2 ∷ symbol v3 ∷ src) 1 (set_digit c4 0 v0) h1,
        decode_from-symbol v2 (symbol v3 ∷ src) 2 (set_digit (set_digit c4 0 v0) 1 v1) h2,
        decode_from-symbol v3 src 3 (set_digit (set_digit (set_digit c4 0 v0) 1 v1) 2 v2) h3,
      )
      refl

decode_from-two :
    (v0 v1 : ℕ) (c4 : Digits)
    → v0 < 64
    → v1 < 64
    → (decode_from (symbol v0 ∷ symbol v1 ∷ padding ∷ padding ∷ []) 0 c4).written
      ≡ take 1 (decode_group (digits_of v0 v1 c4.d2 c4.d3))
unfolding set_digit decode_from decode_rest
decode_from-two v0 v1 c4 h0 h1 =
    rw
      (
        decode_from-symbol v0 (symbol v1 ∷ padding ∷ padding ∷ []) 0 c4 h0,
        decode_from-symbol v1 (padding ∷ padding ∷ []) 1 (set_digit c4 0 v0) h1,
      )
      refl

decode_from-three :
    (v0 v1 v2 : ℕ) (c4 : Digits)
    → v0 < 64
    → v1 < 64
    → v2 < 64
    → (decode_from (symbol v0 ∷ symbol v1 ∷ symbol v2 ∷ padding ∷ []) 0 c4).written
      ≡ take 2 (decode_group (digits_of v0 v1 v2 c4.d3))
unfolding set_digit decode_from decode_rest
decode_from-three v0 v1 v2 c4 h0 h1 h2 =
    rw
      (
        decode_from-symbol v0 (symbol v1 ∷ symbol v2 ∷ padding ∷ []) 0 c4 h0,
        decode_from-symbol v1 (symbol v2 ∷ padding ∷ []) 1 (set_digit c4 0 v0) h1,
        decode_from-symbol v2 (padding ∷ []) 2 (set_digit (set_digit c4 0 v0) 1 v1) h2,
      )
      refl

-- What encoding gives and what decoding it with `c4` gives: `size` characters and the bytes again.
abbrev pub Codes : Result (List ℕ) → (size : ℕ) → Digits → List ℕ → Type 0
Codes result size c4 bs =
    (out : List ℕ) × (result ≡ ok out) × (length out ≡ size) × ((decode_from out 0 c4).written ≡ bs)

encode_one : (a : ℕ) (c4 : Digits) → a < 256 → Codes (encode_rest (a ∷ []) 1) 4 c4 (a ∷ [])
unfolding encode_rest index decode_group
encode_one a c4 ha =
    let low = first_of_lem a ha in
    let v1 = bit_and a 0x03 * 2 ^ 4 in
    let is_second : v1 ≡ second_of a 0 = omega arith in
    (
      symbol (first_of a) ∷ symbol v1 ∷ padding ∷ padding ∷ [],
      refl,
      refl,
      decode_from-two (first_of a) v1 c4 (omega arith)
            (omega (arith, second_of_lem a 0 (omega arith)))
          ∙ ap (λ (b : ℕ). b ∷ []) (byte0_back a 0 v1 ha (omega arith) is_second),
    )

encode_two :
    (a b : ℕ) (c4 : Digits)
    → a < 256
    → b < 256
    → Codes (encode_rest (a ∷ b ∷ []) 2) 4 c4 (a ∷ b ∷ [])
unfolding encode_rest index decode_group
encode_two a b c4 ha hb =
    let first = first_of_lem a ha in
    let second = second_of_lem a b hb in
    let third = third_of_lem b 0 (omega arith) in
    let v2 = bit_and b 0x0f * 2 ^ 2 in
    let is_third : v2 ≡ third_of b 0 = omega arith in
    (
      symbol (first_of a) ∷ symbol (second_of a b) ∷ symbol v2 ∷ padding ∷ [],
      refl,
      refl,
      decode_from-three (first_of a) (second_of a b) v2 c4 (omega arith) (omega arith) (omega arith)
          ∙ ap₂ (λ (x y : ℕ). x ∷ y ∷ []) (byte0_back a b (second_of a b) ha hb refl)
              (byte1_back a b 0 v2 ha hb (omega arith) is_third),
    )

decode_group_back :
    (a b c : ℕ)
    → a < 256
    → b < 256
    → c < 256
    → decode_group (digits_of (first_of a) (second_of a b) (third_of b c) (fourth_of c))
      ≡ a ∷ b ∷ c ∷ []
unfolding decode_group
decode_group_back a b c ha hb hc =
    rw
      (
        byte0_back a b (second_of a b) ha hb refl,
        byte1_back a b c (third_of b c) ha hb hc refl,
        byte2_back b c hc,
      )
      refl

encode_three :
    (a b c : ℕ) (src : List ℕ) (c4 : Digits)
    → a < 256
    → b < 256
    → c < 256
    → (decode_from (encode_group a b c ++ src) 0 c4).written
      ≡ a
        ∷ b
        ∷ c
        ∷ (decode_from src 0
            (digits_of (first_of a) (second_of a b) (third_of b c) (fourth_of c))).written
unfolding encode_group
encode_three a b c src c4 ha hb hc =
    let first = first_of_lem a ha in
    let second = second_of_lem a b hb in
    let third = third_of_lem b c hc in
    let fourth = fourth_of_lem c in
    decode_from-group (first_of a) (second_of a b) (third_of b c) (fourth_of c) src c4 (omega arith)
      (omega arith) (omega arith) (omega arith)
    ∙ rw (decode_group_back a b c ha hb hc) refl

-- The characters of the bytes behind the last whole group.
abbrev pub rest_size : ℕ → ℕ
rest_size zero = 0
rest_size (suc n) = 4

pub size_lem : (n rest : ℕ) → rest ≡ n % 3 → n / 3 * 4 + rest_size rest ≡ (n + 2) / 3 * 4
size_lem n zero e = omega arith
size_lem n (suc rest) e = omega arith

encode_rest-Codes :
    (rest : ℕ) (bs : List ℕ) (c4 : Digits)
    → AllBytes bs
    → rest < 3
    → length bs ≡ rest
    → Codes (encode_rest bs rest) (rest_size rest) c4 bs
unfolding encode_rest decode_from decode_rest
encode_rest-Codes zero [] c4 h small len = ([], refl, refl, refl)
encode_rest-Codes (suc zero) (a ∷ []) c4 (ha, _) small len = encode_one a c4 ha
encode_rest-Codes (suc (suc zero)) (a ∷ b ∷ []) c4 (ha, (hb, _)) small len = encode_two a b c4 ha hb
encode_rest-Codes zero (a ∷ bs) c4 h small len = absurd (omega arith)
encode_rest-Codes (suc zero) [] c4 h small len = absurd (omega arith)
encode_rest-Codes (suc zero) (a ∷ b ∷ bs) c4 h small len = absurd (omega arith)
encode_rest-Codes (suc (suc zero)) [] c4 h small len = absurd (omega arith)
encode_rest-Codes (suc (suc zero)) (a ∷ []) c4 h small len = absurd (omega arith)
encode_rest-Codes (suc (suc zero)) (a ∷ b ∷ c ∷ bs) c4 h small len = absurd (omega arith)
encode_rest-Codes (suc (suc (suc rest))) bs c4 h small len = absurd (omega arith)

encode_groups-Codes :
    (n rest : ℕ) (bs : List ℕ) (c4 : Digits)
    → AllBytes bs
    → rest < 3
    → length bs ≡ n * 3 + rest
    → Codes (encode_groups n rest bs) (n * 4 + rest_size rest) c4 bs
unfolding encode_groups index encode_group
encode_groups-Codes zero rest bs c4 h small len =
    let (out, is_out, size, back) = encode_rest-Codes rest bs c4 h small (omega arith) in
    (out, is_out, omega arith, back)
encode_groups-Codes (suc n) rest [] c4 h small len = absurd (omega arith)
encode_groups-Codes (suc n) rest (a ∷ []) c4 h small len = absurd (omega arith)
encode_groups-Codes (suc n) rest (a ∷ b ∷ []) c4 h small len = absurd (omega arith)
encode_groups-Codes (suc n) rest (a ∷ b ∷ c ∷ bs) c4 (ha, (hb, (hc, h))) small len =
    let digits = digits_of (first_of a) (second_of a b) (third_of b c) (fourth_of c) in
    let (out, is_out, size, back) = encode_groups-Codes n rest bs digits h small (omega arith) in
    (
      encode_group a b c ++ out,
      rw is_out refl,
      omega arith,
      encode_three a b c out c4 ha hb hc ∙ ap (λ (t : List ℕ). a ∷ b ∷ c ∷ t) back,
    )

-- Encoding all bytes of a list stays inside of it and gives four characters for three bytes begun,
-- and decoding the characters gives the bytes back, whatever the array `c4` of `decode` holds at
-- first.
pub encode-Codes :
    (bs : List ℕ) (c4 : Digits)
    → AllBytes bs
    → Codes (encode bs (length bs)) ((length bs + 2) / 3 * 4) c4 bs
unfolding encode
encode-Codes bs c4 h =
    let n = length bs / 3 in
    let rest = length bs % 3 in
    let (out, is_out, size, back) =
      encode_groups-Codes n rest bs c4 h (omega arith) (omega arith) in
    (out, is_out, size ∙ size_lem (length bs) rest refl, back)
