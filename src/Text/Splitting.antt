-- ===== src/Text/Splitting.antt =====
-- Split takes apart what was put together with a separator.
use nuke.Base.{
  ℕ, suc, ◌-◌, ◌≡◌, refl, sym, ap, ◌∙◌, arith, true, List, [], ◌∷◌, ◌++◌, length, append_assoc,
  append_nil, ==_refl,
}
use nuke.Base.Text.{IsFreeOf, ==_differs}
use nuke.Text.{starts_with, cut, tokens, without_empty_end, split}

-- `s` is the separator's first byte and `ss` the rest.
module _ (s : ℕ) (ss : List ℕ) where
  abbrev pub separator : List ℕ
  separator = s ∷ ss

  starts_with_self : (ps ys : List ℕ) → starts_with ps (ps ++ ys) ≡ true
  starts_with_self [] ys = refl
  starts_with_self (p ∷ ps) ys = rw (==_refl p) (starts_with_self ps ys)

  one_less : (n : ℕ) → suc n - 1 ≡ n
  one_less n = omega arith

  cut_skips :
      (piece skipped ys : List ℕ)
      → cut separator piece (length skipped) (skipped ++ ys) ≡ cut separator piece 0 ys
  unfolding cut
  cut_skips piece [] ys = refl
  cut_skips piece (x ∷ xs) ys = cut_skips piece xs ys

  pub cut_found :
      (piece xs ys : List ℕ)
      → IsFreeOf s xs
      → cut separator piece 0 (xs ++ separator ++ ys) ≡ (piece ++ xs) ∷ cut separator [] 0 ys
  unfolding cut
  cut_found piece [] ys free = rw (==_refl s) (
      rw (starts_with_self ss ys) (
        rw (append_nil piece)
          (rw (one_less (length ss)) (ap (λ (t : List (List ℕ)). piece ∷ t) (cut_skips [] ss ys)))))
  cut_found piece (x ∷ xs) ys (differ, free) = rw (==_differs s x (λ e. differ (sym e))) (
      cut_found (piece ++ x ∷ []) xs ys free
      ∙ ap (λ (t : List ℕ). t ∷ cut separator [] 0 ys) (append_assoc piece (x ∷ []) xs))

  pub cut_last : (piece xs : List ℕ) → IsFreeOf s xs → cut separator piece 0 xs ≡ (piece ++ xs) ∷ []
  unfolding cut
  cut_last piece [] free = ap (λ (t : List ℕ). t ∷ []) (sym (append_nil piece))
  cut_last piece (x ∷ xs) (differ, free) = rw (==_differs s x (λ e. differ (sym e))) (
      cut_last (piece ++ x ∷ []) xs free
      ∙ ap (λ (t : List ℕ). t ∷ []) (append_assoc piece (x ∷ []) xs))

  -- Every piece is followed by a separator.
  abbrev pub print_ended : List (List ℕ) → List ℕ
  print_ended [] = []
  print_ended (p ∷ ps) = p ++ separator ++ print_ended ps

  abbrev pub AllFree : List (List ℕ) → Type 0
  AllFree [] = Unit
  AllFree (p ∷ ps) = IsFreeOf s p × AllFree ps

  cut-print_ended :
      (ps : List (List ℕ)) → AllFree ps → cut separator [] 0 (print_ended ps) ≡ ps ++ [] ∷ []
  unfolding cut
  cut-print_ended [] free = refl
  cut-print_ended (p ∷ ps) (here, free) =
      cut_found [] p (print_ended ps) here
      ∙ ap (λ (t : List (List ℕ)). p ∷ t) (cut-print_ended ps free)

  without_empty_end-snoc : (ps : List (List ℕ)) → without_empty_end (ps ++ [] ∷ []) ≡ ps
  without_empty_end-snoc [] = refl
  without_empty_end-snoc (p ∷ []) = refl
  without_empty_end-snoc (p ∷ q ∷ ps) =
      ap (λ (t : List (List ℕ)). p ∷ t) (without_empty_end-snoc (q ∷ ps))

  tokens-snoc : (p : List ℕ) (ps : List (List ℕ)) → tokens (p ∷ (ps ++ [] ∷ [])) ≡ p ∷ ps
  tokens-snoc p [] = refl
  tokens-snoc p (q ∷ ps) = ap (λ (t : List (List ℕ)). p ∷ t) (without_empty_end-snoc (q ∷ ps))

  -- `Split` at a separator whose first byte is in none of the pieces gives at least one piece back
  -- from the text in which each is followed by the separator, empty pieces included.
  pub split-print_ended :
      (p : List ℕ) (ps : List (List ℕ))
      → AllFree (p ∷ ps)
      → split (print_ended (p ∷ ps)) separator ≡ p ∷ ps
  unfolding split
  split-print_ended p ps free = rw (cut-print_ended (p ∷ ps) free) (tokens-snoc p ps)

  -- A last piece without a separator behind it.
  cut-print_joined :
      (ps : List (List ℕ)) (last : List ℕ)
      → AllFree ps
      → IsFreeOf s last
      → cut separator [] 0 (print_ended ps ++ last) ≡ ps ++ last ∷ []
  cut-print_joined [] last free last_free = cut_last [] last last_free
  cut-print_joined (p ∷ ps) last (here, free) last_free =
      ap (λ (t : List ℕ). cut separator [] 0 t)
        (append_assoc (p ++ separator) (print_ended ps) last)
      ∙ cut_found [] p (print_ended ps ++ last) here
      ∙ ap (λ (t : List (List ℕ)). p ∷ t) (cut-print_joined ps last free last_free)

  without_empty_end-given :
      (ps : List (List ℕ)) (y : ℕ) (ys : List ℕ)
      → without_empty_end (ps ++ (y ∷ ys) ∷ []) ≡ ps ++ (y ∷ ys) ∷ []
  without_empty_end-given [] y ys = refl
  without_empty_end-given (p ∷ []) y ys = refl
  without_empty_end-given (p ∷ q ∷ ps) y ys =
      ap (λ (t : List (List ℕ)). p ∷ t) (without_empty_end-given (q ∷ ps) y ys)

  tokens-given :
      (p : List ℕ) (ps : List (List ℕ)) (y : ℕ) (ys : List ℕ)
      → tokens (p ∷ (ps ++ (y ∷ ys) ∷ [])) ≡ p ∷ (ps ++ (y ∷ ys) ∷ [])
  tokens-given p [] y ys = refl
  tokens-given p (q ∷ ps) y ys =
      ap (λ (t : List (List ℕ)). p ∷ t) (without_empty_end-given (q ∷ ps) y ys)

  pub split-print_joined :
      (p : List ℕ) (ps : List (List ℕ)) (y : ℕ) (ys : List ℕ)
      → AllFree (p ∷ ps)
      → IsFreeOf s (y ∷ ys)
      → split (print_ended (p ∷ ps) ++ y ∷ ys) separator ≡ p ∷ (ps ++ (y ∷ ys) ∷ [])
  unfolding split
  split-print_joined p ps y ys free last_free =
      rw (cut-print_joined (p ∷ ps) (y ∷ ys) free last_free) (tokens-given p ps y ys)

  -- A separator between two pieces.
  pub split_two :
      (xs : List ℕ) (y : ℕ) (ys : List ℕ)
      → IsFreeOf s xs
      → IsFreeOf s (y ∷ ys)
      → split (xs ++ separator ++ y ∷ ys) separator ≡ xs ∷ (y ∷ ys) ∷ []
  unfolding split
  split_two xs y ys hx hy = rw (cut_found [] xs (y ∷ ys) hx) (rw (cut_last [] (y ∷ ys) hy) refl)

  pub split_empty_end : (xs : List ℕ) → IsFreeOf s xs → split (xs ++ separator) separator ≡ xs ∷ []
  split_empty_end xs hx =
      ap (λ (t : List ℕ). split t separator) (sym (append_nil (xs ++ separator)))
      ∙ split-print_ended xs [] (hx, tt)

  pub split_one : (xs : List ℕ) → IsFreeOf s xs → split xs separator ≡ xs ∷ []
  unfolding split
  split_one xs hx = rw (cut_last [] xs hx) refl
