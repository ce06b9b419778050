-- ===== src/Processes/Windows/Naming.antt =====
-- GetProcessShortName against an independent description.
use nuke.Base.{
  ℕ, zero, suc, ◌+◌, ◌<◌, ◌≡◌, ◌≢◌, refl, ap, ◌∙◌, true, false, List, [], ◌∷◌, ◌++◌, map, ◌⊎◌, inl,
  inr, Bool-cases, ◌==◌, if◌then◌else◌, length, drop, arith,
}
use nuke.Base.Int.{ℤ, pos}
use nuke.Base.Text.{IsFreeOf}
use nuke.Processes.Windows.ShortName.{
  c_string, lower, same_lower, equal_ignoring_case, dot_exe, last_marks,
}

abbrev backslash : ℕ
backslash = b'\\'

-- The text is ".exe" in small or capital letters.
abbrev pub IsExe : List ℕ → Type 0
IsExe ext = map lower ext ≡ dot_exe

-- Nothing, or a text that ends in a backslash.
abbrev pub IsDirectory : List ℕ → Type 0
IsDirectory dir = (dir ≡ []) ⊎ ((front : List ℕ) × (dir ≡ front ++ b'\\' ∷ []))

-- The name without its ending ".exe", and the whole name if it has no such ending.
pub data Shortened (base : List ℕ) : List ℕ → Type 0 where
  cut : (stem ext : List ℕ) → base ≡ stem ++ ext → IsExe ext → Shortened base stem
  whole : ((stem ext : List ℕ) → base ≡ stem ++ ext → ¬ IsExe ext) → Shortened base base

pub last_marks-append :
    (i : ℕ) (xs ys : List ℕ) (s p : ℤ)
    → last_marks i (xs ++ ys) s p
      ≡ last_marks (i + length xs) ys (last_marks i xs s p).slash (last_marks i xs s p).period
unfolding last_marks
last_marks-append i [] ys s p = ap (λ (t : ℕ). last_marks t ys s p) (omega arith)
last_marks-append i (x ∷ xs) ys s p =
    last_marks-append (suc i) xs ys (if x == b'\\' then pos i else s)
      (if x == b'\\' then p else if x == b'.' then pos i else p)
    ∙ ap
        (λ (t : ℕ).
          last_marks t ys (last_marks i (x ∷ xs) s p).slash (last_marks i (x ∷ xs) s p).period)
        (omega arith)

pub slash-IsFreeOf :
    (i : ℕ) (xs : List ℕ) (s p : ℤ) → IsFreeOf b'\\' xs → (last_marks i xs s p).slash ≡ s
unfolding last_marks
slash-IsFreeOf i [] s p free = refl
slash-IsFreeOf i (x ∷ xs) s p (differ, free) =
    let other : (x == b'\\') ≡ false = ground (arith, differ) in
    slash-IsFreeOf (suc i) xs (if x == b'\\' then pos i else s)
      (if x == b'\\' then p else if x == b'.' then pos i else p) free
    ∙ rw other refl

pub period-IsFreeOf :
    (i : ℕ) (xs : List ℕ) (s p : ℤ) → IsFreeOf b'.' xs → (last_marks i xs s p).period ≡ p
unfolding last_marks
period-IsFreeOf i [] s p free = refl
period-IsFreeOf i (x ∷ xs) s p (differ, free) =
    let other : (x == b'.') ≡ false = ground (arith, differ) in
    period-IsFreeOf (suc i) xs (if x == b'\\' then pos i else s)
      (if x == b'\\' then p else if x == b'.' then pos i else p) free
    ∙ ground (arith, other)

-- A period is found at a place, or none is.
pub period_cases :
    (i : ℕ) (xs : List ℕ) (s p : ℤ)
    → ((last_marks i xs s p).period ≡ p)
      ⊎ ((k : ℕ) × (k < i + length xs) × ((last_marks i xs s p).period ≡ pos k))
unfolding last_marks
period_cases i [] s p = inl refl
period_cases i (x ∷ xs) s p =
    elim (period_cases (suc i) xs (if x == b'\\' then pos i else s)
      (if x == b'\\' then p else if x == b'.' then pos i else p)) [
        | inr (k, below, found) ↦ inr (k, omega arith, found)
        | inl same ↦ elim (Bool-cases (x == b'\\')) [
          | inl slash ↦ inl (same ∙ rw slash refl)
          | inr plain ↦ elim (Bool-cases (x == b'.')) [
            | inl period ↦ inr (i, omega arith, same ∙ rw (plain, period) refl)
            | inr other ↦ inl (same ∙ rw (plain, other) refl)
          ]
        ]
      ]

-- What follows from the four letters.
pub record ExeFacts (ext : List ℕ) : Type 0 where
  pub tail : List ℕ
  pub starts : ext ≡ b'.' ∷ tail
  pub no_period : IsFreeOf b'.' tail
  pub no_backslash : IsFreeOf b'\\' ext
  pub equal : equal_ignoring_case ext dot_exe ≡ true

letter_facts :
    (c k : ℕ)
    → lower c ≡ k
    → 96 < k
    → k < 123
    → (c ≢ b'.') × (c ≢ b'\\') × ((c == 0) ≡ false) × ((lower c == k) ≡ true)
letter_facts c k h low high = ground arith

period_facts :
    (c : ℕ)
    → lower c ≡ b'.'
    → (c ≡ b'.') × (c ≢ b'\\') × ((c == 0) ≡ false) × ((lower c == b'.') ≡ true)
period_facts c h = ground arith

exe_letters :
    (c0 c1 c2 c3 : ℕ)
    → lower c0 ≡ b'.'
    → lower c1 ≡ b'e'
    → lower c2 ≡ b'x'
    → lower c3 ≡ b'e'
    → ExeFacts (c0 ∷ c1 ∷ c2 ∷ c3 ∷ [])
unfolding equal_ignoring_case c_string
exe_letters c0 c1 c2 c3 h0 h1 h2 h3 =
    let f0 = period_facts c0 h0 in
    let f1 = letter_facts c1 b'e' h1 (omega arith) (omega arith) in
    let f2 = letter_facts c2 b'x' h2 (omega arith) (omega arith) in
    let f3 = letter_facts c3 b'e' h3 (omega arith) (omega arith) in
    record {
      tail = c1 ∷ c2 ∷ c3 ∷ [];
      starts = ap (λ (t : ℕ). t ∷ c1 ∷ c2 ∷ c3 ∷ []) f0.0;
      no_period = (f1.0, (f2.0, (f3.0, tt)));
      no_backslash = (f0.1, (f1.1, (f2.1, (f3.1, tt))));
      equal = rw (f0.2, f1.2, f2.2, f3.2) (rw (f0.3, f1.3, f2.3, f3.3) refl);
    }

pub exe_facts : (ext : List ℕ) → IsExe ext → ExeFacts ext
exe_facts [] h = absurd (omega (arith, ap length h))
exe_facts (a ∷ []) h = absurd (omega (arith, ap length h))
exe_facts (a ∷ b ∷ []) h = absurd (omega (arith, ap length h))
exe_facts (a ∷ b ∷ c ∷ []) h = absurd (omega (arith, ap length h))
exe_facts (a ∷ b ∷ c ∷ d ∷ []) h = exe_letters a b c d (cc) (cc) (cc) (cc)
exe_facts (a ∷ b ∷ c ∷ d ∷ e ∷ rest) h = absurd (omega (arith, ap length h))

c_string-IsFreeOf : (xs : List ℕ) → IsFreeOf 0 xs → c_string xs ≡ xs
unfolding c_string
c_string-IsFreeOf [] free = refl
c_string-IsFreeOf (x ∷ xs) (differ, free) =
    let other : (x == 0) ≡ false = ground (arith, differ) in
    rw other (ap (λ (t : List ℕ). x ∷ t) (c_string-IsFreeOf xs free))

pub IsFreeOf-drop : (c n : ℕ) (xs : List ℕ) → IsFreeOf c xs → IsFreeOf c (drop n xs)
IsFreeOf-drop c zero xs free = free
IsFreeOf-drop c (suc n) [] free = tt
IsFreeOf-drop c (suc n) (x ∷ xs) (differ, free) = IsFreeOf-drop c n xs free

same_lower-IsExe : (xs : List ℕ) → same_lower xs dot_exe ≡ true → IsExe xs
same_lower-IsExe [] h = cc
same_lower-IsExe (a ∷ []) h = ground (arith)
same_lower-IsExe (a ∷ b ∷ []) h = ground (arith)
same_lower-IsExe (a ∷ b ∷ c ∷ []) h = ground (arith)
same_lower-IsExe (a ∷ b ∷ c ∷ d ∷ []) h = ground (arith)
same_lower-IsExe (a ∷ b ∷ c ∷ d ∷ e ∷ rest) h = ground (arith)

pub equal-IsExe : (xs : List ℕ) → IsFreeOf 0 xs → equal_ignoring_case xs dot_exe ≡ true → IsExe xs
unfolding equal_ignoring_case c_string
equal-IsExe xs free h = same_lower-IsExe xs (rw (← c_string-IsFreeOf xs free) h)
