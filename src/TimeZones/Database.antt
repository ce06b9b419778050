-- ===== src/TimeZones/Database.antt =====
-- CrossPlatform/TimeZoneApi.Linux.cpp. Lines are shorter than 2^31 characters.
pub mod Rows
use nuke.Base.{
  ℕ, ◌+◌, ◌-◌, ◌==◌, Bool, not, true, false, List, [], ◌∷◌, ◌++◌, Option, none, some, if◌then◌else◌,
}
use nuke.Base.Result.{Result, ok, throws, undefined, ◌>>=◌}
use nuke.Base.Text.{find, find_from, substr, substr_to_end, ended_lines}

-- "zone.tab" and "/usr/share/zoneinfo/"
abbrev time_zone_file_name : List ℕ
time_zone_file_name = b'z' ∷ b'o' ∷ b'n' ∷ b'e' ∷ b'.' ∷ b't' ∷ b'a' ∷ b'b' ∷ []

abbrev pub default_time_zone_directory : List ℕ
default_time_zone_directory =
    b'/' ∷ b'u' ∷ b's' ∷ b'r' ∷ b'/' ∷ b's' ∷ b'h' ∷ b'a' ∷ b'r' ∷ b'e' ∷ b'/' ∷ b'z' ∷ b'o' ∷ b'n'
    ∷ b'e' ∷ b'i' ∷ b'n' ∷ b'f' ∷ b'o' ∷ b'/' ∷ []

-- `s.back()`, undefined for an empty string.
abbrev pub back : List ℕ → Result ℕ
back [] = throws undefined
back (x ∷ []) = ok x
back (x ∷ y ∷ ys) = back (y ∷ ys)

abbrev or_default : Option (List ℕ) → List ℕ
or_default none = default_time_zone_directory
or_default (some text) = text

-- GetTimeZoneDirectory, from what `getenv("TZDIR")` returns.
unfoldable pub get_time_zone_directory : Option (List ℕ) → Result (List ℕ)
get_time_zone_directory environment = do
  let directory = or_default environment
  last ← back directory
  ok (if not (last == b'/') then directory ++ b'/' ∷ [] else directory)

abbrev pub tab : ℕ
tab = 9

abbrev pub nonempty : List ℕ → Option (List ℕ)
nonempty [] = none
nonempty (x ∷ xs) = some (x ∷ xs)

-- The body of the loop of ParseTimeZoneIds behind the test for a comment, from the third search on,
-- from the second, and from the first.
abbrev pub from_third : (line : List ℕ) (start : ℕ) → Option ℕ → Option (List ℕ)
from_third line start none = nonempty (substr_to_end line start)
from_third line start (some third_tab) = nonempty (substr line start (third_tab - start))

abbrev pub from_second : (line : List ℕ) → Option ℕ → Option (List ℕ)
from_second line none = none
from_second line (some second_tab) =
    from_third line (second_tab + 1) (find_from tab line (second_tab + 1))

abbrev pub from_first : (line : List ℕ) → Option ℕ → Option (List ℕ)
from_first line none = none
from_first line (some first_tab) = from_second line (find_from tab line (first_tab + 1))

unfoldable pub time_zone_id : List ℕ → Option (List ℕ)
time_zone_id line = from_first line (find tab line)

unfoldable pub parse_line : List ℕ → Option (List ℕ)
parse_line [] = none
parse_line (x ∷ xs) = if x == b'#' then none else time_zone_id (x ∷ xs)

abbrev pub add_id : Option (List ℕ) → List (List ℕ) → List (List ℕ)
add_id none ids = ids
add_id (some id) ids = id ∷ ids

unfoldable pub parse_lines : List (List ℕ) → List (List ℕ)
parse_lines [] = []
parse_lines (line ∷ lines) = add_id (parse_line line) (parse_lines lines)

-- ParseTimeZoneIds. The loop ends at the end of the file, before it looks at an unended line.
unfoldable pub parse_time_zone_ids : (file : List ℕ) → List (List ℕ)
parse_time_zone_ids file = parse_lines (ended_lines [] file)

-- GetTimeZoneIds, which reads the file and has no `return`. `read_file` is the file system's.
unfoldable pub get_time_zone_ids :
    (read_file : List ℕ → List ℕ) → Option (List ℕ) → Result (List (List ℕ))
get_time_zone_ids read_file environment = do
  directory ← get_time_zone_directory environment
  let ids = parse_time_zone_ids (read_file (directory ++ time_zone_file_name))
  throws undefined
