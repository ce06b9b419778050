-- ===== src/Files.antt =====
-- System/IO/Directory.h and System/IO/FileInfo.cpp: the options of an enumeration of files. Enumerations
-- of directories themselves return an empty list.
pub mod Statics
pub mod Answers
mod Tests
use nuke.Base.{ℕ, ◌^◌, ◌-◌, Bool, true, false, List, [], bit_or}
use nuke.Base.Int.{ℤ, pos, ltb_ℤ}
use nuke.Base.Result.{Result, ok, out_of_range, ◌>>◌, throw_if}

-- FileAttributes, as its numbers.
abbrev pub nothing : ℕ
nothing = 0

abbrev pub hidden : ℕ
hidden = 0x2

abbrev pub system : ℕ
system = 0x4

-- operator| of FileAttributes
unfoldable pub or_attributes : ℕ → ℕ → ℕ
or_attributes f1 f2 = bit_or f1 f2

pub data MatchType : Type 0 where
  simple win32 : MatchType

pub data MatchCasing : Type 0 where
  platform_default case_sensitive case_insensitive : MatchCasing

pub record EnumerationOptions : Type 0 where
  pub recurse_subdirectories : Bool
  pub ignore_inaccessible : Bool
  pub buffer_size : ℤ
  pub attributes_to_skip : ℕ
  pub match_type : MatchType
  pub match_casing : MatchCasing
  pub max_recursion_depth : ℤ
  pub return_special_directories : Bool

abbrev pub default_max_recursion_depth : ℤ
default_max_recursion_depth = pos (2 ^ 31 - 1)

unfoldable pub set_recurse_subdirectories : EnumerationOptions → Bool → EnumerationOptions
set_recurse_subdirectories options value = record options { recurse_subdirectories = value }

unfoldable pub set_ignore_inaccessible : EnumerationOptions → Bool → EnumerationOptions
set_ignore_inaccessible options value = record options { ignore_inaccessible = value }

unfoldable pub set_buffer_size : EnumerationOptions → ℤ → EnumerationOptions
set_buffer_size options value = record options { buffer_size = value }

unfoldable pub set_attributes_to_skip : EnumerationOptions → ℕ → EnumerationOptions
set_attributes_to_skip options value = record options { attributes_to_skip = value }

unfoldable pub set_match_type : EnumerationOptions → MatchType → EnumerationOptions
set_match_type options value = record options { match_type = value }

unfoldable pub set_match_casing : EnumerationOptions → MatchCasing → EnumerationOptions
set_match_casing options value = record options { match_casing = value }

unfoldable pub set_return_special_directories : EnumerationOptions → Bool → EnumerationOptions
set_return_special_directories options value = record options { return_special_directories = value }

unfoldable pub set_max_recursion_depth : EnumerationOptions → ℤ → Result EnumerationOptions
set_max_recursion_depth options value =
    throw_if (ltb_ℤ value (pos 0)) out_of_range
    >> ok (record options { max_recursion_depth = value })

-- The constructor, from what the object's memory held before.
unfoldable pub new_options : (memory : EnumerationOptions) → Result EnumerationOptions
new_options memory =
    let accessible = set_ignore_inaccessible memory true in
    let skipping = set_attributes_to_skip accessible (or_attributes hidden system) in
    set_max_recursion_depth skipping default_max_recursion_depth

-- Directory::EnumerateDirectories
unfoldable pub enumerate_directories :
    (path search_pattern : List ℕ) → EnumerationOptions → List (List ℕ)
enumerate_directories path search_pattern options = []
