-- ===== src/Text/Trimming.antt =====
-- Trim against a description that takes characters off both ends of a list.
use nuke.Base.{
  ℕ, zero, suc, ◌+◌, ◌-◌, ◌≤◌, ◌<◌, ◌==◌, ◌≡◌, refl, sym, ap, ◌∙◌, arith, true, false, List, [],
  ◌∷◌, ◌++◌, inl, inr, if◌then◌else◌, leb, length, take, drop, get_or, Bool-cases, ==_iff, zero_add,
  suc_add, add_zero,
}
use nuke.Text.{is_one_of, head_stop, tail_stop, create_trimmed_string, trim_helper, trim}

abbrev nothing : List ℕ
nothing = []

get_or-nil : (n d : ℕ) → get_or nothing n d ≡ d
get_or-nil n d = refl

leb-suc : (e : ℕ) → leb (suc e) e ≡ false
leb-suc e = ground arith

leb_add : (start j : ℕ) → leb start (start + j) ≡ true
leb_add start j = ground arith

add_suc : (a b : ℕ) → a + suc b ≡ suc (a + b)
add_suc a b = omega arith

sub_self : (a : ℕ) → a - a ≡ 0
sub_self a = omega arith

suc_sub : (a b : ℕ) → suc (a + b) - a ≡ suc b
suc_sub a b = omega arith

module _ (trim_chars : List ℕ) where
  abbrev pub strip_head : List ℕ → List ℕ
  strip_head [] = []
  strip_head (x ∷ xs) = let rest = strip_head xs in if is_one_of x trim_chars then rest else x ∷ xs

  abbrev pub keep_before : ℕ → List ℕ → List ℕ
  keep_before x [] = if is_one_of x trim_chars then [] else x ∷ []
  keep_before x (y ∷ ys) = x ∷ y ∷ ys

  abbrev pub strip_tail : List ℕ → List ℕ
  strip_tail [] = []
  strip_tail (x ∷ xs) = keep_before x (strip_tail xs)

  strip_tail-in :
      (xs : List ℕ) (x : ℕ)
      → is_one_of x trim_chars ≡ true
      → strip_tail (xs ++ x ∷ []) ≡ strip_tail xs
  strip_tail-in [] x e = rw (e) refl
  strip_tail-in (y ∷ ys) x e = ap (keep_before y) (strip_tail-in ys x e)

  keep_before-snoc :
      (y : ℕ) (ys : List ℕ) (x : ℕ) → keep_before y (ys ++ x ∷ []) ≡ y ∷ (ys ++ x ∷ [])
  keep_before-snoc y [] x = refl
  keep_before-snoc y (z ∷ zs) x = refl

  strip_tail-out :
      (xs : List ℕ) (x : ℕ)
      → is_one_of x trim_chars ≡ false
      → strip_tail (xs ++ x ∷ []) ≡ xs ++ x ∷ []
  strip_tail-out [] x e = rw (e) refl
  strip_tail-out (y ∷ ys) x e = ap (keep_before y) (strip_tail-out ys x e) ∙ keep_before-snoc y ys x

  take_more : (j : ℕ) (t : List ℕ) → j < length t → take (suc j) t ≡ take j t ++ get_or t j 0 ∷ []
  take_more j [] below = absurd (omega (arith, below))
  take_more zero (x ∷ xs) below = refl
  take_more (suc j) (x ∷ xs) below =
      ap (λ (t : List ℕ). x ∷ t) (take_more j xs (omega (arith, below)))

  get_or-drop : (start j : ℕ) (s : List ℕ) → get_or s (start + j) 0 ≡ get_or (drop start s) j 0
  get_or-drop zero j s = rw (zero_add j) refl
  get_or-drop (suc start) j [] = get_or-nil (suc start + j) 0 ∙ sym (get_or-nil j 0)
  get_or-drop (suc start) j (x ∷ xs) = rw (suc_add start j) (get_or-drop start j xs)

  head_stop-strip : (s : List ℕ) → drop (head_stop trim_chars s) s ≡ strip_head s
  unfolding head_stop
  head_stop-strip [] = refl
  head_stop-strip (x ∷ xs) = elim (Bool-cases (is_one_of x trim_chars)) [
    | inl e ↦ rw (e) (head_stop-strip xs)
    | inr e ↦ rw (e) refl
  ]

  head_stop-le : (s : List ℕ) → head_stop trim_chars s ≤ length s
  unfolding head_stop
  head_stop-le [] = omega arith
  head_stop-le (x ∷ xs) = ground (arith, head_stop-le xs)

  tail_stop-le : (s : List ℕ) (start n : ℕ) → tail_stop trim_chars s start n ≤ n
  unfolding tail_stop
  tail_stop-le s start zero = omega arith
  tail_stop-le s start (suc n) = ground (arith, tail_stop-le s start n)

  tail_stop-start : (s : List ℕ) (start : ℕ) → tail_stop trim_chars s start start ≡ start
  unfolding tail_stop
  tail_stop-start s zero = refl
  tail_stop-start s (suc e) = rw (leb-suc e) refl

  tail_stop-in :
      (s : List ℕ) (start j : ℕ)
      → is_one_of (get_or (drop start s) j 0) trim_chars ≡ true
      → tail_stop trim_chars s start (suc (start + j)) ≡ tail_stop trim_chars s start (start + j)
  unfolding tail_stop
  tail_stop-in s start j e = rw (get_or-drop start j s) (rw (e) (rw (leb_add start j) refl))

  tail_stop-out :
      (s : List ℕ) (start j : ℕ)
      → is_one_of (get_or (drop start s) j 0) trim_chars ≡ false
      → tail_stop trim_chars s start (suc (start + j)) ≡ suc (start + j)
  unfolding tail_stop
  tail_stop-out s start j e = rw (get_or-drop start j s) (rw (e) (rw (leb_add start j) refl))

  tail_stop-strip :
      (s : List ℕ) (start k : ℕ)
      → k ≤ length (drop start s)
      → take (tail_stop trim_chars s start (start + k) - start) (drop start s)
        ≡ strip_tail (take k (drop start s))
  unfolding tail_stop
  tail_stop-strip s start zero below =
      rw (add_zero start) (rw (tail_stop-start s start) (rw (sub_self start) refl))
  tail_stop-strip s start (suc j) below =
      elim (Bool-cases (is_one_of (get_or (drop start s) j 0) trim_chars)) [
        | inl e ↦ rw (add_suc start j) (
            rw (tail_stop-in s start j e) (
              tail_stop-strip s start j (omega (arith, below))
              ∙ sym (
                  ap strip_tail (take_more j (drop start s) (omega (arith, below)))
                  ∙ strip_tail-in (take j (drop start s)) (get_or (drop start s) j 0) e)))
        | inr e ↦ rw (add_suc start j) (
            rw (tail_stop-out s start j e) (
              rw (suc_sub start j) (
                rw (take_more j (drop start s) (omega (arith, below)))
                  (sym (strip_tail-out (take j (drop start s)) (get_or (drop start s) j 0) e)))))
      ]

  drop-le : (n : ℕ) (s : List ℕ) → n ≤ length s → n + length (drop n s) ≡ length s
  drop-le zero s below = omega arith
  drop-le (suc n) [] below = absurd (omega (arith, below))
  drop-le (suc n) (x ∷ xs) below = omega (arith, drop-le n xs (omega (arith, below)))

  take_all : (s : List ℕ) → take (length s) s ≡ s
  take_all [] = refl
  take_all (x ∷ xs) = ap (λ (t : List ℕ). x ∷ t) (take_all xs)

  all_taken :
      (s : List ℕ) (start behind : ℕ)
      → start ≤ length s
      → behind ≤ length s
      → behind - start ≡ length s
      → s ≡ take (behind - start) (drop start s)
  all_taken s zero behind low high whole = sym (take_all s) ∙ ap (λ (n : ℕ). take n s) (sym whole)
  all_taken s (suc start) behind low high whole = absurd (omega (arith, low, high, whole))

  create_trimmed_string_lem :
      (s : List ℕ) (start behind : ℕ)
      → start ≤ length s
      → behind ≤ length s
      → create_trimmed_string s start behind ≡ take (behind - start) (drop start s)
  unfolding create_trimmed_string
  create_trimmed_string_lem s start behind low high =
      elim (Bool-cases ((behind - start) == length s)) [
        | inl e ↦
            rw (e) (all_taken s start behind low high ((==_iff (behind - start) (length s)).0 e))
        | inr e ↦ rw (e) (elim (Bool-cases ((behind - start) == 0)) [
          | inl z ↦
              rw (z) (sym (ap (λ (n : ℕ). take n (drop start s)) ((==_iff (behind - start) 0).0 z)))
          | inr z ↦ rw (z) refl
        ])
      ]

  pub trim_helper-strip :
      (s : List ℕ) → trim_helper s trim_chars true true ≡ strip_tail (strip_head s)
  unfolding trim_helper
  trim_helper-strip s =
      let start = head_stop trim_chars s in
      let low = head_stop-le s in
      create_trimmed_string_lem s start (tail_stop trim_chars s start (length s)) low
        (tail_stop-le s start (length s))
      ∙ ap (λ (n : ℕ). take (tail_stop trim_chars s start n - start) (drop start s))
          (sym (drop-le start s low))
      ∙ tail_stop-strip s start (length (drop start s)) (omega arith)
      ∙ rw (take_all (drop start s)) (ap strip_tail (head_stop-strip s))

-- `Trim` takes off the characters at the start that are the given one, and then those at the end.
pub trim-strip : (s : List ℕ) (c : ℕ) → trim s c ≡ strip_tail (c ∷ []) (strip_head (c ∷ []) s)
unfolding trim
trim-strip s c = trim_helper-strip (c ∷ []) s
