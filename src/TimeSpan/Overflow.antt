-- ===== src/TimeSpan/Overflow.antt =====
-- The checks of `Add`, `Subtract` and the negations against the exact integers.
use nuke.Base.{suc, ◌+◌, ◌≡◌, arith, ◌⊎◌, true, ◌↔◌}
use nuke.Base.Int.{ℤ, pos, negsuc, pos_part, neg_part, ◌+ℤ◌, ◌-ℤ◌, neg_ℤ}
use nuke.Base.Word.{IsInt64, i64}
use nuke.Base.Result.{Result, ok, throws, overflow_error, ByCases, ByCases-of}
use nuke.TimeSpan.{
  TimeSpan, from_ticks, add, subtract, negate, duration, compare_to, compare_spans, equals, less,
}

-- `r` is the time span of `z` ticks if that is an int64_t, and an overflow error if it is not.
abbrev pub Checked : ℤ → Result TimeSpan → Type 0
Checked z = ByCases (IsInt64 z) (ok (from_ticks z)) (throws overflow_error)

IsInt64-or : (z : ℤ) → IsInt64 z ⊎ (¬ IsInt64 z)
IsInt64-or z = ground arith

-- Wrapping changes nothing in range.
pub i64_lem : (z : ℤ) → IsInt64 z → i64 z ≡ z
i64_lem z h = ground arith

-- For all int64_t ticks `Add` returns the exact sum if that is an int64_t, and throws
-- `overflow_error` if it is not.
pub add-Checked :
    (a b : ℤ) → IsInt64 a → IsInt64 b → Checked (a +ℤ b) (add (from_ticks a) (from_ticks b))
unfolding add ◌+ℤ◌
add-Checked a b ha hb = ByCases-of _ (IsInt64-or _) (λ fits. ground arith) (λ over. ground arith)

-- For all int64_t ticks `Subtract` returns the exact difference if that is an int64_t, and throws
-- `overflow_error` if it is not.
pub subtract-Checked :
    (a b : ℤ) → IsInt64 a → IsInt64 b → Checked (a -ℤ b) (subtract (from_ticks a) (from_ticks b))
unfolding subtract ◌-ℤ◌
subtract-Checked a b ha hb =
    ByCases-of _ (IsInt64-or _) (λ fits. ground arith) (λ over. ground arith)

-- The unary minus returns the exact opposite, or throws when it is no int64_t.
pub negate-Checked : (a : ℤ) → IsInt64 a → Checked (neg_ℤ a) (negate (from_ticks a))
unfolding negate
negate-Checked a ha = ByCases-of _ (IsInt64-or _) (λ fits. ground arith) (λ over. ground arith)

-- The magnitude of an integer.
abbrev pub magnitude : ℤ → ℤ
magnitude z = pos (pos_part z + neg_part z)

-- For int64_t ticks `Duration` returns their magnitude if that is an int64_t, and throws
-- `overflow_error` if it is not, which is at the least value.
pub duration-Checked : (a : ℤ) → IsInt64 a → Checked (magnitude a) (duration (from_ticks a))
unfolding duration
duration-Checked (pos n) ha =
    ByCases-of _ (IsInt64-or (pos (n + 0))) (λ fits. ground arith) (λ over. ground arith)
duration-Checked (negsuc n) ha =
    ByCases-of _ (IsInt64-or (pos (0 + suc n))) (λ fits. ground arith) (λ over. ground arith)

-- For all int64_t ticks `Add`, `Subtract` and `Duration` return the exact sum, difference and
-- magnitude if that is an int64_t, and throw `overflow_error` if it is not.
pub arithmetic-Checked :
    (a b : ℤ)
    → IsInt64 a
    → IsInt64 b
    → Checked (a +ℤ b) (add (from_ticks a) (from_ticks b))
      × Checked (a -ℤ b) (subtract (from_ticks a) (from_ticks b))
      × Checked (magnitude a) (duration (from_ticks a))
arithmetic-Checked a b ha hb =
    (add-Checked a b ha hb, subtract-Checked a b ha hb, duration-Checked a ha)

-- If `Add` of two time spans of int64_t ticks returns, subtracting the second from its result
-- gives the first.
pub subtract-add :
    (a b : ℤ) {c : TimeSpan}
    → IsInt64 a
    → IsInt64 b
    → add (from_ticks a) (from_ticks b) ≡ ok c
    → subtract c (from_ticks b) ≡ ok (from_ticks a)
unfolding add subtract ◌+ℤ◌ ◌-ℤ◌
subtract-add a b ha hb e = ground arith

-- `CompareTo` is -1, 0 or 1 exactly if `operator<` holds, `Equals` holds or `operator<` holds the
-- other way round; `Compare` of the file agrees with it; and `Equals` holds exactly for equal
-- values.
pub compare_to-order :
    (a b : TimeSpan)
    → ((compare_to a b ≡ negsuc 0) ↔ (less a b ≡ true))
      × ((compare_to a b ≡ pos 0) ↔ (equals a b ≡ true))
      × ((compare_to a b ≡ pos 1) ↔ (less b a ≡ true))
      × (compare_spans a b ≡ compare_to a b)
      × ((equals a b ≡ true) ↔ (a ≡ b))
unfolding compare_to compare_spans less equals
compare_to-order a b = (ground arith, ground arith, ground arith, ground arith, ground arith)
