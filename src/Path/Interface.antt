-- ===== src/Path/Interface.antt =====
-- What System/IO/Path.cpp takes from its platform, the namespace PathInternal. A path is a list of
-- characters; `path[i]` is read below the size only, or at the size, where a string holds 0.
use nuke.Base.{ℕ, Bool, List, get_or}

abbrev pub char_at : List ℕ → ℕ → ℕ
char_at path i = get_or path i 0

pub record Platform : Type 0 where
  pub directory_separator : ℕ
  pub is_directory_separator : ℕ → Bool
  pub is_effectively_empty : List ℕ → Bool
  pub get_root_length : List ℕ → ℕ
  pub is_path_rooted : List ℕ → Bool
