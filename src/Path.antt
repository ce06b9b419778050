-- ===== src/Path.antt =====
-- System/IO/Path.cpp: the class Path over the functions of its platform. A path is the list of its
-- characters, shorter than 2^31. The sizes that are summed up only to reserve memory are left out.
pub mod Interface
pub mod Linux
pub mod Windows
pub mod Roots
pub mod Names
pub mod Combining
pub mod Tests
use nuke.Base.{
  ℕ, zero, suc, ◌+◌, ◌-◌, Bool, true, false, not, ◌&&◌, ◌||◌, ◌==◌, ltb, leb, List, [], ◌∷◌, ◌++◌,
  length, if◌then◌else◌, drop, take,
}
use nuke.Base.Int.{ℤ, pos, negsuc}
use nuke.Base.Result.{Result, ok, throws, undefined}
use nuke.Path.Interface.{Platform, char_at}

module _ (P : Platform) where
  -- Path::IsPathRooted and Path::GetPathRoot
  unfoldable pub is_path_rooted : List ℕ → Bool
  is_path_rooted path = P.is_path_rooted path

  unfoldable pub get_path_root : List ℕ → List ℕ
  get_path_root path = if is_path_rooted path then P.directory_separator ∷ [] else []

  -- The first loop of Combine, from path number `i` on.
  unfoldable pub first_component : List (List ℕ) → (i first : ℕ) → ℕ
  first_component [] i first = first
  first_component (path ∷ paths) i first =
      first_component paths (suc i)
        (if length path == 0 then first else if is_path_rooted path then i else first)

  -- `builder[builder.size() - 1]` of a builder that is not empty.
  unfoldable pub last_char : List ℕ → ℕ
  last_char builder = char_at builder (length builder - 1)

  -- One turn of the second loop.
  unfoldable pub combine_step : (builder path : List ℕ) → List ℕ
  combine_step builder path =
      if length path == 0
      then builder
      else if length builder == 0
      then builder ++ path
      else if not (P.is_directory_separator (last_char builder))
      then (builder ++ P.directory_separator ∷ []) ++ path
      else builder ++ path

  unfoldable pub combine_from : (builder : List ℕ) → List (List ℕ) → List ℕ
  combine_from builder [] = builder
  combine_from builder (path ∷ paths) = combine_from (combine_step builder path) paths

  unfoldable pub combine : List (List ℕ) → List ℕ
  combine paths = combine_from [] (drop (first_component paths 0 0) paths)

  unfoldable pub join_step : (builder path : List ℕ) → List ℕ
  join_step builder path =
      if length path == 0
      then builder
      else if length builder == 0
      then builder ++ path
      else if not (P.is_directory_separator (last_char builder))
          && not (P.is_directory_separator (char_at path 0))
      then (builder ++ P.directory_separator ∷ []) ++ path
      else builder ++ path

  unfoldable pub join_from : (builder : List ℕ) → List (List ℕ) → List ℕ
  join_from builder [] = builder
  join_from builder (path ∷ paths) = join_from (join_step builder path) paths

  unfoldable pub join : List (List ℕ) → List ℕ
  join paths = join_from [] paths

  -- The loop of GetFileName, entered with `i`. `--i >= 0` holds for every size_t, so that 0 is followed
  -- by the largest number, at which no path has a character.
  unfoldable pub file_name_from : List ℕ → (root i : ℕ) → Result (List ℕ)
  file_name_from path root zero = throws undefined
  file_name_from path root (suc i) =
      let rest = file_name_from path root i in
      if ltb i root || P.is_directory_separator (char_at path i)
      then ok (drop (i + 1) path)
      else rest

  unfoldable pub get_file_name : List ℕ → Result (List ℕ)
  get_file_name path = file_name_from path (length (get_path_root path)) (length path)

  -- The loops of GetDirectoryNameOffset.
  unfoldable pub back_to_separator : List ℕ → (root end : ℕ) → ℕ
  back_to_separator path root zero = zero
  back_to_separator path root (suc end) =
      let rest = back_to_separator path root end in
      if leb (suc end) root
      then suc end
      else if P.is_directory_separator (char_at path end)
      then end
      else rest

  unfoldable pub back_over_separators : List ℕ → (root end : ℕ) → ℕ
  back_over_separators path root zero = zero
  back_over_separators path root (suc end) =
      let rest = back_over_separators path root end in
      if ltb root (suc end) && P.is_directory_separator (char_at path end) then rest else suc end

  unfoldable pub get_directory_name_offset : List ℕ → ℤ
  get_directory_name_offset path =
      let root = P.get_root_length path in
      if leb (length path) root
      then negsuc 0
      else pos (back_over_separators path root (back_to_separator path root (length path)))

  unfoldable pub prefix_to : List ℕ → ℤ → List ℕ
  prefix_to path (pos end) = take end path
  prefix_to path (negsuc n) = []

  unfoldable pub get_directory_name : List ℕ → List ℕ
  get_directory_name path =
      if P.is_effectively_empty path then [] else prefix_to path (get_directory_name_offset path)
