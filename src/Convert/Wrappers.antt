-- ===== src/Convert/Wrappers.antt =====
-- The buffers that `FromBase64String` and `ToBase64String` give to the coder.
use nuke.Base.{
  ℕ, zero, suc, ◌+◌, ◌-◌, ◌*◌, ◌/◌, ◌%◌, ◌^◌, ◌≤◌, ◌<◌, ◌≡◌, refl, arith, false, List, [], ◌∷◌,
  ◌++◌, length, sym, ◌∙◌, ltb, replicate,
}
use nuke.Base.Int.{ℤ, pos}
use mathlib.Core.Path.{subst}
use nuke.Base.Word.{u64}
use nuke.Base.Memory.{index, AllBytes}
use nuke.Base.Result.{Result, ok, throws, undefined, ◌>>=◌}
use nuke.Convert.{
  Digits, decode_group, decode_from, decode_rest, set_digit, encode, encode_groups, encode_group,
  encode_rest, encoded_size, decoded_size, written_to, from_base64_string, to_base64_string,
}
use nuke.Convert.Alphabet.{symbol}
use nuke.Convert.Coding.{encode-Codes, decode_from-symbol, rest_size, size_lem}

-- What the coder writes: `size` characters, unless it reads behind the end of its input.
data Sized (size : ℕ) : Result (List ℕ) → Type 0 where
  sized : (out : List ℕ) → length out ≡ size → Sized size (ok out)
  stray : Sized size (throws undefined)

written_to_small :
    (size : ℕ) (bytes : List ℕ)
    → length bytes ≤ size
    → written_to size bytes ≡ ok (bytes ++ replicate (size - length bytes) 0)
unfolding written_to
written_to_small size bytes h = ground arith

written_to_large :
    (size : ℕ) (bytes : List ℕ) → size < length bytes → written_to size bytes ≡ throws undefined
unfolding written_to
written_to_large size bytes h = ground arith

ok-injective : {a b : List ℕ} → Result.ok a ≡ ok b → a ≡ b
ok-injective e = cc

-- `FromBase64String` of the encoding of some bytes returns the bytes followed by as many zero
-- bytes as the last group of three lacks.
pub from_base64_string-encode :
    (bs out : List ℕ) (c4 : Digits)
    → AllBytes bs
    → encode bs (length bs) ≡ ok out
    → from_base64_string out c4 ≡ ok (bs ++ replicate ((length bs + 2) / 3 * 3 - length bs) 0)
unfolding from_base64_string decoded_size
from_base64_string-encode bs out c4 h e =
    let (chars, is_chars, size, back) = encode-Codes bs c4 h in
    let same : out ≡ chars = ok-injective (sym e ∙ is_chars) in
    let room : (length bs + 2) / 3 * 4 / 4 * 3 ≡ (length bs + 2) / 3 * 3 = omega arith in
    rw (same, size, back, room) (written_to_small _ bs (omega arith))

encode_rest-Sized :
    (src : List ℕ) (rest : ℕ) → rest < 3 → Sized (rest_size rest) (encode_rest src rest)
unfolding encode_rest index
encode_rest-Sized src zero h = sized [] refl
encode_rest-Sized [] (suc zero) h = stray
encode_rest-Sized (a ∷ src) (suc zero) h = sized _ refl
encode_rest-Sized [] (suc (suc zero)) h = stray
encode_rest-Sized (a ∷ []) (suc (suc zero)) h = stray
encode_rest-Sized (a ∷ b ∷ src) (suc (suc zero)) h = sized _ refl
encode_rest-Sized src (suc (suc (suc rest))) h = absurd (omega arith)

-- One more group in front.
Sized-group :
    (a b c size : ℕ) (r : Result (List ℕ))
    → Sized size r
    → Sized (suc size + 3) (r >>= λ out. ok (encode_group a b c ++ out))
unfolding encode_group
Sized-group a b c size _ (sized out is_size) = sized _ (omega arith)
Sized-group a b c size _ stray = stray

encode_groups-Sized :
    (n rest : ℕ) (src : List ℕ)
    → rest < 3
    → Sized (n * 4 + rest_size rest) (encode_groups n rest src)
unfolding encode_groups index
encode_groups-Sized zero rest src h =
    subst (λ (size : ℕ). Sized size (encode_rest src rest)) (omega arith)
      (encode_rest-Sized src rest h)
encode_groups-Sized (suc n) rest [] h = stray
encode_groups-Sized (suc n) rest (a ∷ []) h = stray
encode_groups-Sized (suc n) rest (a ∷ b ∷ []) h = stray
encode_groups-Sized (suc n) rest (a ∷ b ∷ c ∷ src) h =
    subst
      (λ (size : ℕ).
        Sized size (encode_groups n rest src >>= λ out. ok (encode_group a b c ++ out)))
      (omega arith)
      (Sized-group a b c (n * 4 + rest_size rest) _ (encode_groups-Sized n rest src h))

encode-Sized : (src : List ℕ) (len : ℕ) → Sized ((len + 2) / 3 * 4) (encode src len)
unfolding encode
encode-Sized src len =
    rw (sym (size_lem len (len % 3) refl))
      (encode_groups-Sized (len / 3) (len % 3) src (omega arith))

too_large :
    (size : ℕ) (r : Result (List ℕ)) (buffer : ℕ)
    → buffer < size
    → Sized size r
    → (r >>= written_to buffer) ≡ throws undefined
too_large size _ buffer h (sized out is_size) = written_to_large buffer out (omega arith)
too_large size _ buffer h stray = refl

-- For every positive int32_t length whose encoding a string can hold, `ToBase64String` reads
-- behind the end of its input or writes behind the end of its string, whatever the input and the
-- offset are.
pub to_base64_string_undefined :
    (capacity : ℕ) (in_array : List ℕ) (offset : ℤ) (length : ℕ)
    → 0 < length
    → length < 2 ^ 31
    → (length + 2) / 3 * 4 ≤ capacity
    → to_base64_string capacity in_array offset (pos length) ≡ throws undefined
unfolding to_base64_string encoded_size
to_base64_string_undefined capacity in_array offset length positive fits room =
    let e_size : u64 (4 * (u64 (length % 2 ^ 64 + 2) / 3)) ≡ (length + 2) / 3 * 4 = omega arith in
    let no_throw : ltb capacity ((length + 2) / 3 * 4) ≡ false = ground arith in
    rw (e_size, no_throw)
      (too_large _ _ _ (omega arith) (encode-Sized in_array ((length + 2) / 3 * 4)))

-- The bytes that are written for `n` characters of the alphabet, from digit number `i` of a group on.
abbrev pub symbols : List ℕ → List ℕ
symbols [] = []
symbols (v ∷ vs) = symbol v ∷ symbols vs

abbrev pub AllDigits : List ℕ → Type 0
AllDigits [] = Unit
AllDigits (v ∷ vs) = (v < 64) × AllDigits vs

decode_from-length :
    (vs : List ℕ) (i : ℕ) (c4 : Digits)
    → AllDigits vs
    → i < 4
    → length ((decode_from (symbols vs) i c4).written)
      ≡ (i + length vs) / 4 * 3 + ((i + length vs) % 4 - 1)
unfolding decode_from decode_rest decode_group
decode_from-length [] zero c4 h small = refl
decode_from-length [] (suc zero) c4 h small = refl
decode_from-length [] (suc (suc zero)) c4 h small = refl
decode_from-length [] (suc (suc (suc zero))) c4 h small = refl
decode_from-length vs (suc (suc (suc (suc i)))) c4 h small = absurd (omega arith)
decode_from-length (v ∷ vs) zero c4 (hv, h) small =
    rw (decode_from-symbol v (symbols vs) 0 c4 hv)
      (omega (arith, decode_from-length vs 1 (set_digit c4 0 v) h (omega arith)))
decode_from-length (v ∷ vs) (suc zero) c4 (hv, h) small =
    rw (decode_from-symbol v (symbols vs) 1 c4 hv)
      (omega (arith, decode_from-length vs 2 (set_digit c4 1 v) h (omega arith)))
decode_from-length (v ∷ vs) (suc (suc zero)) c4 (hv, h) small =
    rw (decode_from-symbol v (symbols vs) 2 c4 hv)
      (omega (arith, decode_from-length vs 3 (set_digit c4 2 v) h (omega arith)))
decode_from-length (v ∷ vs) (suc (suc (suc zero))) c4 (hv, h) small =
    rw (decode_from-symbol v (symbols vs) 3 c4 hv)
      (omega (arith, decode_from-length vs 0 (set_digit c4 3 v) h (omega arith)))

length-symbols : (vs : List ℕ) → length (symbols vs) ≡ length vs
length-symbols [] = refl
length-symbols (v ∷ vs) = omega (arith, length-symbols vs)

-- `FromBase64String` writes behind its buffer for every text of characters of the alphabet whose
-- length is 2 or 3 more than a multiple of 4.
pub from_base64_string-symbols :
    (vs : List ℕ) (c4 : Digits)
    → AllDigits vs
    → 2 ≤ length vs % 4
    → from_base64_string (symbols vs) c4 ≡ throws undefined
unfolding from_base64_string decoded_size
from_base64_string-symbols vs c4 h more =
    written_to_large _ _
      (omega (arith, decode_from-length vs 0 c4 h (omega arith), length-symbols vs))
