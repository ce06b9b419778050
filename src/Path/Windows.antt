-- ===== src/Path/Windows.antt =====
-- The namespace PathInternal of System/IO/Path.cpp for Windows.
use nuke.Base.{
  ℕ, zero, suc, ◌-◌, ◌+◌, Bool, true, false, not, ◌&&◌, ◌||◌, ◌==◌, ltb, leb, List, [], ◌∷◌, length,
  if◌then◌else◌,
}
use nuke.Path.Interface.{Platform, char_at}

abbrev pub backslash : ℕ
backslash = 92

-- AltDirectorySeparatorChar
abbrev pub forward_slash : ℕ
forward_slash = 47

-- VolumeSeparatorChar
abbrev pub colon : ℕ
colon = 58

abbrev pub space : ℕ
space = 32

abbrev pub question_mark : ℕ
question_mark = 63

abbrev pub dot : ℕ
dot = 46

abbrev pub device_prefix_length : ℕ
device_prefix_length = 4

abbrev pub unc_prefix_length : ℕ
unc_prefix_length = 2

abbrev pub unc_extended_prefix_length : ℕ
unc_extended_prefix_length = 8

unfoldable pub is_directory_separator : ℕ → Bool
is_directory_separator c = (c == backslash) || (c == forward_slash)

-- The loop looks for a character that is no space.
unfoldable pub is_effectively_empty : List ℕ → Bool
is_effectively_empty [] = true
is_effectively_empty (c ∷ path) = if not (c == space) then false else is_effectively_empty path

unfoldable pub is_extended : List ℕ → Bool
is_extended path =
    leb device_prefix_length (length path)
    && (char_at path 0 == backslash)
    && ((char_at path 1 == backslash) || (char_at path 1 == question_mark))
    && (char_at path 2 == question_mark)
    && (char_at path 3 == backslash)

unfoldable pub is_device : List ℕ → Bool
is_device path =
    is_extended path
    || (leb device_prefix_length (length path)
        && is_directory_separator (char_at path 0)
        && is_directory_separator (char_at path 1)
        && ((char_at path 2 == dot) || (char_at path 2 == question_mark))
        && is_directory_separator (char_at path 3))

unfoldable pub is_device_unc : List ℕ → Bool
is_device_unc path =
    leb unc_extended_prefix_length (length path)
    && is_device path
    && is_directory_separator (char_at path 7)
    && (char_at path 4 == 85)
    && (char_at path 5 == 78)
    && (char_at path 6 == 67)

unfoldable pub is_valid_drive_char : ℕ → Bool
is_valid_drive_char value = (leb 65 value && leb value 90) || (leb 97 value && leb value 122)

-- `while (i < pathLength && (!IsDirectorySeparator(path[i]) || --n > 0)) i++;` The fuel is the number
-- of characters behind `i`.
unfoldable pub skip_share : List ℕ → (fuel i n : ℕ) → ℕ
skip_share path zero i n = i
skip_share path (suc fuel) i n =
    let at_separator = is_directory_separator (char_at path i) in
    let n' = if at_separator then n - 1 else n in
    let rest = skip_share path fuel (suc i) n' in
    if ltb i (length path) && (not at_separator || ltb 0 n') then rest else i

-- `while (i < pathLength && !IsDirectorySeparator(path[i])) i++;`
unfoldable pub skip_name : List ℕ → (fuel i : ℕ) → ℕ
skip_name path zero i = i
skip_name path (suc fuel) i =
    let rest = skip_name path fuel (suc i) in
    if ltb i (length path) && not (is_directory_separator (char_at path i)) then rest else i

-- The three branches of GetRootLength.
unfoldable pub unc_root : List ℕ → (device_unc : Bool) → ℕ
unc_root path device_unc =
    if device_unc || (ltb 1 (length path) && is_directory_separator (char_at path 1))
    then skip_share path (length path)
        (if device_unc then unc_extended_prefix_length else unc_prefix_length) 2
    else 1

unfoldable pub device_root : List ℕ → ℕ
device_root path =
    let i = skip_name path (length path) device_prefix_length in
    if ltb i (length path) && ltb device_prefix_length i && is_directory_separator (char_at path i)
    then i + 1
    else i

unfoldable pub drive_root : List ℕ → ℕ
drive_root path =
    if leb 2 (length path) && (char_at path 1 == colon) && is_valid_drive_char (char_at path 0)
    then if ltb 2 (length path) && is_directory_separator (char_at path 2) then 3 else 2
    else 0

unfoldable pub get_root_length : List ℕ → ℕ
get_root_length path =
    let device_syntax = is_device path in
    let device_unc = device_syntax && is_device_unc path in
    if (not device_syntax || device_unc)
      && ltb 0 (length path)
      && is_directory_separator (char_at path 0)
    then unc_root path device_unc
    else if device_syntax
    then device_root path
    else drive_root path

unfoldable pub is_path_rooted : List ℕ → Bool
is_path_rooted path =
    (leb 1 (length path) && is_directory_separator (char_at path 0))
    || (leb 2 (length path) && is_valid_drive_char (char_at path 0) && (char_at path 1 == colon))

unfoldable pub windows : Platform
windows = record {
  directory_separator = backslash;
  is_directory_separator = is_directory_separator;
  is_effectively_empty = is_effectively_empty;
  get_root_length = get_root_length;
  is_path_rooted = is_path_rooted;
}
