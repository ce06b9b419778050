-- ===== src/Base/Memory.antt =====
-- Bytes, and reads of a vector, a span or an array through an index, and of words in memory.
use Prim.Native.Nat.{ℕ, zero, suc, ◌+◌, ◌*◌, ◌/◌, ◌%◌, ◌^◌, ◌<◌, ◌≤◌}
use mathlib.Core.Path.{◌≡◌, refl, ap}
use mathlib.Core.Option.{none, some}
use mathlib.Core.List.{List, [], ◌∷◌, ◌++◌}
use native.Mathlib.Omega.{arith}
use native.Mathlib.Nat.{pow-suc}
use nuke.Base.Lists.{get_elem?, length}
use nuke.Base.Result.{Result, ok, throws, undefined, ◌>>=◌}

-- `v[i]`, undefined behind the end.
unfoldable pub index {ℓ} : {A : Type ℓ} → List A → ℕ → Result A
index xs i = elim (get_elem? xs i) [ none ↦ throws undefined | some x ↦ ok x ]

abbrev pub AllBytes : List ℕ → Type 0
AllBytes [] = Unit
AllBytes (b ∷ bs) = (b < 256) × AllBytes bs

-- A word of `width` bytes, the lowest first.
unfoldable pub read_word : (width : ℕ) → List ℕ → Result ℕ
read_word zero bytes = ok 0
read_word (suc width) [] = throws undefined
read_word (suc width) (b ∷ bytes) = read_word width bytes >>= (λ above. ok (b + 256 * above))

-- The bytes of a word.
abbrev pub word_bytes : (width : ℕ) → ℕ → List ℕ
word_bytes zero v = []
word_bytes (suc width) v = v % 256 ∷ word_bytes width (v / 256)

pub read_word-word_bytes :
    (width v : ℕ) (rest : List ℕ)
    → v < 256 ^ width
    → read_word width (word_bytes width v ++ rest) ≡ ok v
unfolding read_word
read_word-word_bytes zero v rest h = ap ok (omega arith)
read_word-word_bytes (suc width) v rest h =
    rw (read_word-word_bytes width (v / 256) rest (omega (arith, pow-suc 256 width)))
      (ap ok (omega arith))

-- A read that stays inside.
pub read_word-IsOk :
    (width : ℕ) (bytes : List ℕ) → width ≤ length bytes → (v : ℕ) × (read_word width bytes ≡ ok v)
unfolding read_word
read_word-IsOk zero bytes h = (0, refl)
read_word-IsOk (suc width) [] h = absurd (omega arith)
read_word-IsOk (suc width) (b ∷ bytes) h =
    let (above, read) = read_word-IsOk width bytes (omega arith) in (b + 256 * above, rw read refl)
