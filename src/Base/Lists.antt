-- ===== src/Base/Lists.antt =====
-- Lists measured and indexed by native numbers, under the library's names.
use Prim.Native.Nat.{ℕ, zero, suc, ◌+◌, ◌-◌, ◌≤◌, min}
use mathlib.Core.Path.{◌≡◌, refl, ap, sym, ◌∙◌}
use mathlib.Core.List.{List, [], ◌∷◌, ◌++◌}
use mathlib.Core.Option.{Option, none, some}
use native.Mathlib.Omega.{arith}

-- Laws of the addition that `rw` uses.
pub zero_add : (n : ℕ) → 0 + n ≡ n
zero_add n = omega arith

pub add_zero : (n : ℕ) → n + 0 ≡ n
add_zero n = omega arith

pub add_assoc : (a b c : ℕ) → (a + b) + c ≡ a + (b + c)
add_assoc a b c = omega arith

pub suc_add : (a b : ℕ) → suc a + b ≡ suc (a + b)
suc_add a b = omega arith

module _ {ℓ} {A : Type ℓ} where
  abbrev pub length : List A → ℕ
  length [] = 0
  length (x ∷ xs) = suc (length xs)

  abbrev pub get_elem? : List A → ℕ → Option A
  get_elem? [] i = none
  get_elem? (x ∷ xs) zero = some x
  get_elem? (x ∷ xs) (suc i) = get_elem? xs i

  abbrev pub get_or : List A → ℕ → A → A
  get_or [] i d = d
  get_or (x ∷ xs) zero d = x
  get_or (x ∷ xs) (suc i) d = get_or xs i d

  abbrev pub take : ℕ → List A → List A
  take zero xs = []
  take (suc n) [] = []
  take (suc n) (x ∷ xs) = x ∷ take n xs

  abbrev pub drop : ℕ → List A → List A
  drop zero xs = xs
  drop (suc n) [] = []
  drop (suc n) (x ∷ xs) = drop n xs

  abbrev pub replicate : ℕ → A → List A
  replicate zero a = []
  replicate (suc n) a = a ∷ replicate n a

  pub length-append : (xs ys : List A) → length (xs ++ ys) ≡ length xs + length ys
  length-append [] ys = omega arith
  length-append (x ∷ xs) ys = omega (arith, length-append xs ys)

  pub append_assoc : (xs ys zs : List A) → (xs ++ ys) ++ zs ≡ xs ++ (ys ++ zs)
  append_assoc [] ys zs = refl
  append_assoc (x ∷ xs) ys zs = ap (λ (t : List A). x ∷ t) (append_assoc xs ys zs)

  pub append_nil : (xs : List A) → xs ++ [] ≡ xs
  append_nil [] = refl
  append_nil (x ∷ xs) = ap (λ (t : List A). x ∷ t) (append_nil xs)

  take_nil : (n : ℕ) (none_left : List A) → none_left ≡ [] → take n none_left ≡ []
  take_nil zero none_left e = refl
  take_nil (suc n) none_left e = ap (take (suc n)) e

  drop_nil : (n : ℕ) (none_left : List A) → none_left ≡ [] → drop n none_left ≡ []
  drop_nil zero none_left e = e
  drop_nil (suc n) none_left e = ap (drop (suc n)) e

  pub take-add : (a b : ℕ) (xs : List A) → take (a + b) xs ≡ take a xs ++ take b (drop a xs)
  take-add zero b xs = rw (zero_add b) refl
  take-add (suc a) b [] = take_nil (suc a + b) [] refl ∙ sym (take_nil b [] refl)
  take-add (suc a) b (x ∷ xs) = rw (suc_add a b) (ap (λ (t : List A). x ∷ t) (take-add a b xs))

  pub drop-add : (a b : ℕ) (xs : List A) → drop (a + b) xs ≡ drop b (drop a xs)
  drop-add zero b xs = rw (zero_add b) refl
  drop-add (suc a) b [] = drop_nil (suc a + b) [] refl ∙ sym (drop_nil b [] refl)
  drop-add (suc a) b (x ∷ xs) = rw (suc_add a b) (drop-add a b xs)

  pub replicate_eq : (m n : ℕ) (a : A) → m ≡ n → replicate m a ≡ replicate n a
  replicate_eq m n a e = ap (λ (t : ℕ). replicate t a) e

  pub length-replicate : (n : ℕ) (a : A) → length (replicate n a) ≡ n
  length-replicate zero a = refl
  length-replicate (suc n) a = ap suc (length-replicate n a)

  pub length-take : (n : ℕ) (xs : List A) → length (take n xs) ≡ min n (length xs)
  length-take zero xs = omega arith
  length-take (suc n) [] = omega arith
  length-take (suc n) (x ∷ xs) = omega (arith, length-take n xs)

  pub take_all : (n : ℕ) (xs : List A) → length xs ≤ n → take n xs ≡ xs
  take_all zero [] h = refl
  take_all zero (x ∷ xs) h = absurd (omega arith)
  take_all (suc n) [] h = refl
  take_all (suc n) (x ∷ xs) h = ap (λ (t : List A). x ∷ t) (take_all n xs (omega arith))

  pub replicate-add : (m n : ℕ) (a : A) → replicate m a ++ replicate n a ≡ replicate (m + n) a
  replicate-add zero n a = replicate_eq n (0 + n) a (omega arith)
  replicate-add (suc m) n a =
      ap (λ (t : List A). a ∷ t) (replicate-add m n a)
      ∙ replicate_eq (suc (m + n)) (suc m + n) a (omega arith)

  drop-replicate : (w r : ℕ) (a : A) → drop w (replicate r a) ≡ replicate (r - w) a
  drop-replicate zero r a = replicate_eq r (r - 0) a (omega arith)
  drop-replicate (suc w) zero a = replicate_eq 0 (0 - suc w) a (omega arith)
  drop-replicate (suc w) (suc r) a =
      drop-replicate w r a ∙ replicate_eq (r - w) (suc r - suc w) a (omega arith)

  -- What is written over a longer start leaves the end of copies.
  pub drop-padded :
      (w : ℕ) (xs : List A) (r : ℕ) (a : A)
      → length xs ≤ w
      → drop w (xs ++ replicate r a) ≡ replicate (length xs + r - w) a
  drop-padded w [] r a h = drop-replicate w r a ∙ replicate_eq (r - w) (0 + r - w) a (omega arith)
  drop-padded zero (x ∷ xs) r a h = absurd (omega arith)
  drop-padded (suc w) (x ∷ xs) r a h =
      drop-padded w xs r a (omega arith)
      ∙ replicate_eq (length xs + r - w) (suc (length xs) + r - suc w) a (omega arith)
