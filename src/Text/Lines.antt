-- ===== src/Text/Lines.antt =====
-- The pieces of any text: how the lines of a text begin, and how a line with two pieces begins.
use nuke.Base.{
  ℕ, ◌==◌, ◌≡◌, inl, inr, refl, sym, ap, ◌∙◌, true, false, Bool-cases, ==_iff, ==_refl, List, [],
  ◌∷◌, ◌++◌, append_assoc,
}
use mathlib.Core.Path.{subst}
use nuke.Text.{starts_with, cut, tokens, without_empty_end, split}

-- The prefix stands behind no end of line.
abbrev pub NoneBehind : (prefix text : List ℕ) → Type 0
NoneBehind prefix [] = Unit
NoneBehind prefix (x ∷ xs) = (x ≡ 10 → starts_with prefix xs ≡ false) × NoneBehind prefix xs

-- No line of the text begins with the prefix.
abbrev pub NoLine : (prefix text : List ℕ) → Type 0
NoLine prefix text = (starts_with prefix text ≡ false) × NoneBehind prefix text

abbrev pub NoneBegins : (prefix : List ℕ) (lines : List (List ℕ)) → Type 0
NoneBegins prefix [] = Unit
NoneBegins prefix (line ∷ lines) = (starts_with prefix line ≡ false) × NoneBegins prefix lines

starts_with-shorter :
    (prefix xs ys : List ℕ) → starts_with prefix (xs ++ ys) ≡ false → starts_with prefix xs ≡ false
starts_with-shorter [] xs ys h = h
starts_with-shorter (p ∷ ps) [] ys h = refl
starts_with-shorter (p ∷ ps) (x ∷ xs) ys h = elim (Bool-cases (p == x)) [
  | inl same ↦ rw (same) (starts_with-shorter ps xs ys (rw (same) at h))
  | inr other ↦ rw (other) refl
]

cut-NoneBegins :
    (prefix piece xs : List ℕ)
    → starts_with prefix (piece ++ xs) ≡ false
    → NoneBehind prefix xs
    → NoneBegins prefix (cut (10 ∷ []) piece 0 xs)
unfolding cut
cut-NoneBegins prefix piece [] here behind = (starts_with-shorter prefix piece [] here, tt)
cut-NoneBegins prefix piece (x ∷ xs) here (next, behind) = elim (Bool-cases (10 == x)) [
  | inl same ↦ rw (same) (
    starts_with-shorter prefix piece (x ∷ xs) here,
    cut-NoneBegins prefix [] xs (next (sym ((==_iff 10 x).0 same))) behind,
  )
  | inr other ↦ rw (other) (
      cut-NoneBegins prefix (piece ++ x ∷ []) xs
        (ap (starts_with prefix) (append_assoc piece (x ∷ []) xs) ∙ here) behind)
]

without_empty_end-NoneBegins :
    (prefix : List ℕ) (ps : List (List ℕ))
    → NoneBegins prefix ps
    → NoneBegins prefix (without_empty_end ps)
without_empty_end-NoneBegins prefix [] h = tt
without_empty_end-NoneBegins prefix ([] ∷ []) h = tt
without_empty_end-NoneBegins prefix ((x ∷ xs) ∷ []) h = h
without_empty_end-NoneBegins prefix (p ∷ q ∷ ps) (here, h) =
    (here, without_empty_end-NoneBegins prefix (q ∷ ps) h)

tokens-NoneBegins :
    (prefix : List ℕ) (ps : List (List ℕ)) → NoneBegins prefix ps → NoneBegins prefix (tokens ps)
tokens-NoneBegins prefix [] h = tt
tokens-NoneBegins prefix (p ∷ []) h = h
tokens-NoneBegins prefix (p ∷ q ∷ ps) (here, h) =
    (here, without_empty_end-NoneBegins prefix (q ∷ ps) h)

-- If no line of a text begins with the prefix, none of the pieces of `Split` at the ends of lines
-- does.
pub split-NoneBegins :
    (prefix text : List ℕ) → NoLine prefix text → NoneBegins prefix (split text (10 ∷ []))
unfolding split
split-NoneBegins prefix text (here, behind) =
    tokens-NoneBegins prefix (cut (10 ∷ []) [] 0 text) (cut-NoneBegins prefix [] text here behind)

-- At least two pieces, and the text starts with the first one and the separator.
abbrev Opens : (separator text : List ℕ) (pieces : List (List ℕ)) → Type 0
Opens separator text [] = Unit
Opens separator text (p ∷ []) = Unit
Opens separator text (p ∷ q ∷ ps) = starts_with (p ++ separator) text ≡ true

starts_with_both :
    (front prefix xs : List ℕ)
    → starts_with prefix xs ≡ true
    → starts_with (front ++ prefix) (front ++ xs) ≡ true
starts_with_both [] prefix xs h = h
starts_with_both (x ∷ front) prefix xs h = rw (==_refl x) (starts_with_both front prefix xs h)

first-Opens :
    (separator text p : List ℕ) (rest : List (List ℕ))
    → starts_with (p ++ separator) text ≡ true
    → Opens separator text (p ∷ rest)
first-Opens separator text p [] h = tt
first-Opens separator text p (q ∷ rest) h = h

cut-Opens : (separator piece xs : List ℕ) → Opens separator (piece ++ xs) (cut separator piece 0 xs)
unfolding cut
cut-Opens separator piece [] = tt
cut-Opens separator piece (x ∷ xs) = elim (Bool-cases (starts_with separator (x ∷ xs))) [
  | inl found ↦ rw (found) (
      first-Opens separator (piece ++ x ∷ xs) piece _
        (starts_with_both piece separator (x ∷ xs) found))
  | inr other ↦ rw (other) (
      subst (λ (t : List ℕ). Opens separator t (cut separator (piece ++ x ∷ []) 0 xs))
        (append_assoc piece (x ∷ []) xs) (cut-Opens separator (piece ++ x ∷ []) xs))
]

tokens-Opens :
    (separator text : List ℕ) (ps : List (List ℕ))
    → Opens separator text ps
    → Opens separator text (tokens ps)
tokens-Opens separator text [] h = tt
tokens-Opens separator text (p ∷ []) h = tt
tokens-Opens separator text (p ∷ [] ∷ []) h = tt
tokens-Opens separator text (p ∷ (q ∷ qs) ∷ []) h = h
tokens-Opens separator text (p ∷ q ∷ r ∷ ps) h = h

-- If `Split` gives two pieces or more, the text starts with the first one and the separator.
pub split-Opens :
    (separator text p q : List ℕ) (ps : List (List ℕ))
    → split text separator ≡ p ∷ q ∷ ps
    → starts_with (p ++ separator) text ≡ true
unfolding split
split-Opens separator text p q ps e =
    subst (Opens separator text) e
      (tokens-Opens separator text (cut separator [] 0 text) (cut-Opens separator [] text))
