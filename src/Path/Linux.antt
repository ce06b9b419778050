-- ===== src/Path/Linux.antt =====
-- The namespace PathInternal of System/IO/Path.cpp for Linux.
use nuke.Base.{ℕ, Bool, ◌&&◌, ◌==◌, ltb, List, length, if◌then◌else◌}
use nuke.Path.Interface.{Platform, char_at}

abbrev pub slash : ℕ
slash = 47

unfoldable pub is_directory_separator : ℕ → Bool
is_directory_separator c = c == slash

unfoldable pub is_effectively_empty : List ℕ → Bool
is_effectively_empty path = length path == 0

unfoldable pub get_root_length : List ℕ → ℕ
get_root_length path =
    if ltb 0 (length path) && is_directory_separator (char_at path 0) then 1 else 0

unfoldable pub is_path_rooted : List ℕ → Bool
is_path_rooted path = ltb 0 (length path) && (char_at path 0 == slash)

unfoldable pub linux : Platform
linux = record {
  directory_separator = slash;
  is_directory_separator = is_directory_separator;
  is_effectively_empty = is_effectively_empty;
  get_root_length = get_root_length;
  is_path_rooted = is_path_rooted;
}
