-- ===== src/Processes/Windows/ShortName.antt =====
-- GetProcessShortName: a path without its directories and its extension ".exe". `_stricmp` compares
-- up to the ends of two C strings, in the "C" locale.
use nuke.Base.{
  ℕ, suc, ◌+◌, Bool, true, false, ◌&&◌, List, [], ◌∷◌, leb, ◌==◌, if◌then◌else◌, length,
}
use nuke.Base.Int.{ℤ, pos, negsuc, ◌+ℤ◌, ◌-ℤ◌, eqb_ℤ}
use nuke.Base.Word.{to_u64}
use nuke.Base.Result.{Result, ok, throws, out_of_range}
use nuke.Base.Text.{substr, substr_to_end}

-- The bytes before the terminator.
unfoldable pub c_string : List ℕ → List ℕ
c_string [] = []
c_string (x ∷ xs) = let rest = c_string xs in if x == 0 then [] else x ∷ rest

abbrev pub lower : ℕ → ℕ
lower c = if leb b'A' c && leb c b'Z' then c + 32 else c

abbrev pub same_lower : List ℕ → List ℕ → Bool
same_lower [] [] = true
same_lower (x ∷ xs) (y ∷ ys) = (lower x == lower y) && same_lower xs ys
same_lower _ _ = false

-- `_stricmp(a, b) == 0`
unfoldable pub equal_ignoring_case : List ℕ → List ℕ → Bool
unfolding c_string
equal_ignoring_case a b = same_lower (c_string a) (c_string b)

abbrev pub dot_exe : List ℕ
dot_exe = b'.' ∷ b'e' ∷ b'x' ∷ b'e' ∷ []

-- The loop that looks for the last backslash and the last period.
unfoldable pub last_marks : (i : ℕ) → List ℕ → (slash period : ℤ) → record { slash : ℤ; period : ℤ }
last_marks i [] slash period = record { slash = slash; period = period }
last_marks i (c ∷ name) slash period =
    last_marks (suc i) name (if c == b'\\' then pos i else slash)
      (if c == b'\\' then period else if c == b'.' then pos i else period)

-- `name.substr(start, count)` with the casts of its two arguments.
unfoldable pub cut_out : List ℕ → (start count : ℤ) → Result (List ℕ)
cut_out name start count =
    if leb (to_u64 start) (length name)
    then ok (substr name (to_u64 start) (to_u64 count))
    else throws out_of_range

abbrev pub before_extension : List ℕ → (period : ℤ) → ℤ
before_extension name period =
    let last = pos (length name) -ℤ pos 1 in
    if eqb_ℤ period (negsuc 0)
    then last
    else if equal_ignoring_case (substr_to_end name (to_u64 period)) dot_exe
    then period -ℤ pos 1
    else last

unfoldable pub get_process_short_name : List ℕ → Result (List ℕ)
get_process_short_name [] = ok []
get_process_short_name (c ∷ cs) =
    let name = c ∷ cs in
    let marks = last_marks 0 name (negsuc 0) (negsuc 0) in
    let start = if eqb_ℤ marks.slash (negsuc 0) then pos 0 else marks.slash +ℤ pos 1 in
    cut_out name start (before_extension name marks.period -ℤ start +ℤ pos 1)
