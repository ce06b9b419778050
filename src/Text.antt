-- ===== src/Text.antt =====
-- System/String.cpp on byte strings in the C locale. Strings are shorter than 2^31 bytes, as the
-- code's `int32_t` takes for granted.
pub mod Numbers
pub mod Splitting
pub mod Lines
pub mod Trimming
mod Tests
use nuke.Base.{
  ℕ, zero, suc, ◌+◌, ◌-◌, ◌==◌, Bool, true, false, not, ◌&&◌, ◌||◌, List, [], ◌∷◌, ◌++◌, map,
  Option, none, some, if◌then◌else◌, ltb, leb, length, take, drop, get_or,
}
use nuke.Base.Int.{ℤ, pos, negsuc}
use nuke.Base.Text.{find, substr, plus}

abbrev pub starts_with : (prefix xs : List ℕ) → Bool
starts_with [] xs = true
starts_with (p ∷ ps) [] = false
starts_with (p ∷ ps) (x ∷ xs) = (p == x) && starts_with ps xs

-- The pieces between the places where a separator is found, the last one included. `skip` counts the
-- bytes of a found separator that are still to come.
unfoldable pub cut : (separator piece : List ℕ) (skip : ℕ) → List ℕ → List (List ℕ)
cut separator piece skip [] = piece ∷ []
cut separator piece (suc skip) (x ∷ xs) = cut separator piece skip xs
cut separator piece zero (x ∷ xs) =
    let behind = cut separator [] (length separator - 1) xs in
    let inside = cut separator (piece ++ x ∷ []) 0 xs in
    if starts_with separator (x ∷ xs) then piece ∷ behind else inside

abbrev without_empty_end : List (List ℕ) → List (List ℕ)
without_empty_end [] = []
without_empty_end ([] ∷ []) = []
without_empty_end ((x ∷ xs) ∷ []) = (x ∷ xs) ∷ []
without_empty_end (p ∷ q ∷ ps) = p ∷ without_empty_end (q ∷ ps)

-- What a `std::sregex_token_iterator` with -1 yields: an empty piece at the end is left out, unless
-- the separator is not found at all.
abbrev pub tokens : List (List ℕ) → List (List ℕ)
tokens [] = []
tokens (p ∷ []) = p ∷ []
tokens (p ∷ q ∷ ps) = p ∷ without_empty_end (q ∷ ps)

-- SplitCore and Split, for a regular expression that is a separator without special characters.
unfoldable pub split : (source separator : List ℕ) → List (List ℕ)
split source separator = tokens (cut separator [] 0 source)

unfoldable pub index_of : List ℕ → ℕ → ℤ
index_of s value = elim (find value s) [ none ↦ negsuc 0 | some i ↦ pos i ]

abbrev pub is_one_of : ℕ → List ℕ → Bool
is_one_of x [] = false
is_one_of x (c ∷ cs) = (c == x) || is_one_of x cs

-- The two loops of TrimHelper: the index at which the first one stops, and the index behind the one
-- at which the second one stops.
unfoldable pub head_stop : (trim_chars source : List ℕ) → ℕ
head_stop trim_chars [] = 0
head_stop trim_chars (x ∷ xs) =
    let rest = head_stop trim_chars xs in if is_one_of x trim_chars then suc rest else 0

unfoldable pub tail_stop : (trim_chars source : List ℕ) (start behind : ℕ) → ℕ
tail_stop trim_chars source start zero = 0
tail_stop trim_chars source start (suc end) =
    let rest = tail_stop trim_chars source start end in
    if leb start end && is_one_of (get_or source end 0) trim_chars then rest else suc end

unfoldable pub create_trimmed_string : (source : List ℕ) (start behind : ℕ) → List ℕ
create_trimmed_string source start behind =
    let len = behind - start in
    if len == length source then source else if len == 0 then [] else substr source start len

unfoldable pub trim_helper : (source trim_chars : List ℕ) (head tail : Bool) → List ℕ
trim_helper source trim_chars head tail =
    let start = if head then head_stop trim_chars source else 0 in
    let behind =
      if tail then tail_stop trim_chars source start (length source) else length source in
    create_trimmed_string source start behind

unfoldable pub trim : List ℕ → ℕ → List ℕ
trim source trim_char = trim_helper source (trim_char ∷ []) true true

-- `find` of a string.
unfoldable pub find_string : (value source : List ℕ) → Option ℕ
find_string value [] = if starts_with value [] then some 0 else none
find_string value (x ∷ xs) =
    let rest = find_string value xs in if starts_with value (x ∷ xs) then some 0 else plus 1 rest

abbrev pub is_some : Option ℕ → Bool
is_some none = false
is_some (some i) = true

unfoldable pub contains : (source value : List ℕ) → Bool
contains source value = is_some (find_string value source)

unfoldable pub contains_char : (source : List ℕ) (value : ℕ) → Bool
contains_char source value = is_some (find value source)

abbrev pub replace_at : (source old_value new_value : List ℕ) → Option ℕ → List ℕ
replace_at source old_value new_value none = source
replace_at source old_value new_value (some i) =
    take i source ++ new_value ++ drop (i + length old_value) source

-- Replace, which replaces the first place only.
unfoldable pub replace : (source old_value new_value : List ℕ) → List ℕ
replace source old_value new_value =
    replace_at source old_value new_value (find_string old_value source)

unfoldable pub to_lower : ℕ → ℕ
to_lower c = if leb 65 c && leb c 90 then c + 32 else c

-- `a.compare(b)`: the sign of the first difference.
unfoldable pub compare_strings : List ℕ → List ℕ → ℤ
compare_strings [] [] = pos 0
compare_strings [] (y ∷ ys) = negsuc 0
compare_strings (x ∷ xs) [] = pos 1
compare_strings (x ∷ xs) (y ∷ ys) =
    let rest = compare_strings xs ys in
    if ltb x y then negsuc 0 else if ltb y x then pos 1 else rest

-- Compare, with a StringComparison that ignores the case or does not.
unfoldable pub compare : (a b : List ℕ) (ignores_case : Bool) → ℤ
compare a b ignores_case =
    if ignores_case then compare_strings (map to_lower a) (map to_lower b) else compare_strings a b

abbrev is_zero : ℤ → Bool
is_zero (pos zero) = true
is_zero (pos (suc n)) = false
is_zero (negsuc n) = false

-- A C string ends at its first zero.
abbrev pub c_string : List ℕ → List ℕ
c_string [] = []
c_string (x ∷ xs) = let rest = c_string xs in if x == 0 then [] else x ∷ rest

-- Equals: strcasecmp reads C strings. That the same object equals itself changes nothing.
unfoldable pub equals : (a b : List ℕ) (ignores_case : Bool) → Bool
equals a b ignores_case =
    if ignores_case
    then is_zero (compare_strings (map to_lower (c_string a)) (map to_lower (c_string b)))
    else is_zero (compare_strings a b)
