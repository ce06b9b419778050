-- ===== src/Text/Tests.antt =====
-- Runs of the string functions.
use nuke.Base.{◌≡◌, refl, List, [], ◌∷◌, ℕ}
use nuke.Text.Trimming.{strip_tail, strip_head, trim-strip}
use nuke.Text.{trim, trim_helper, head_stop, tail_stop, create_trimmed_string, replace, find_string}

-- "a", nothing and "b", each with a comma behind it.
abbrev pieces : List (List ℕ)
pieces = (b'a' ∷ []) ∷ [] ∷ (b'b' ∷ []) ∷ []

-- Two dots, "x", a dot.
trimmed : trim (b'.' ∷ b'.' ∷ b'x' ∷ b'.' ∷ []) b'.' ≡ b'x' ∷ []
unfolding trim trim_helper head_stop tail_stop create_trimmed_string
trimmed = refl

all_trimmed : trim (b'.' ∷ b'.' ∷ []) b'.' ≡ []
unfolding trim trim_helper head_stop tail_stop create_trimmed_string
all_trimmed = refl

replaced_once :
    replace (b'a' ∷ b'b' ∷ b'a' ∷ []) (b'a' ∷ []) (b'c' ∷ b'c' ∷ [])
    ≡ b'c' ∷ b'c' ∷ b'b' ∷ b'a' ∷ []
unfolding replace find_string
replaced_once = refl

-- Two dots, "x", a dot, "y", a dot.
trim-strip_example :
    trim (b'.' ∷ b'.' ∷ b'x' ∷ b'.' ∷ b'y' ∷ b'.' ∷ []) b'.'
    ≡ strip_tail (b'.' ∷ []) (strip_head (b'.' ∷ []) (b'.' ∷ b'.' ∷ b'x' ∷ b'.' ∷ b'y' ∷ b'.' ∷ []))
trim-strip_example = trim-strip (b'.' ∷ b'.' ∷ b'x' ∷ b'.' ∷ b'y' ∷ b'.' ∷ []) b'.'
