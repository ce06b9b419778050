-- ===== src/Files/Statics.antt =====
-- The options that functions of EnumerationOptions keep in static objects and return copies of.
use nuke.Base.{ℕ, true, false, not, ◌&&◌, List, [], ◌∷◌, Option, none, some, if◌then◌else◌}
use nuke.Base.Int.{ℤ, pos, eqb_ℤ}
use nuke.Base.Result.{Result, ok, throws, out_of_range, ◌>>=◌}
use nuke.Files.{
  EnumerationOptions, simple, win32, platform_default, nothing, set_recurse_subdirectories,
  set_ignore_inaccessible, set_attributes_to_skip, set_match_type, new_options,
  enumerate_directories,
}

-- Static memory holds zeros before the first call.
abbrev pub zeroed : EnumerationOptions
zeroed = record {
  recurse_subdirectories = false;
  ignore_inaccessible = false;
  buffer_size = pos 0;
  attributes_to_skip = 0;
  match_type = simple;
  match_casing = platform_default;
  max_recursion_depth = pos 0;
  return_special_directories = false;
}

-- The static objects of the three functions, each constructed by the first call.
pub record Statics : Type 0 where
  pub compatible : Option EnumerationOptions
  pub compatible_recursive : Option EnumerationOptions
  pub default : Option EnumerationOptions

abbrev pub no_statics : Statics
no_statics = record { compatible = none; compatible_recursive = none; default = none }

abbrev pub constructed : Option EnumerationOptions → Result EnumerationOptions
constructed none = new_options zeroed
constructed (some options) = ok options

pub record Call : Type 0 where
  pub statics : Statics
  pub options : EnumerationOptions

abbrev as_win32 : EnumerationOptions → EnumerationOptions
as_win32 options =
    set_ignore_inaccessible (set_attributes_to_skip (set_match_type options win32) nothing) false

unfoldable pub compatible : Statics → Result Call
compatible s = do
  options ← constructed s.compatible
  let set = as_win32 options
  ok (record { statics = record s { compatible = some set }; options = set })

unfoldable pub compatible_recursive : Statics → Result Call
compatible_recursive s = do
  options ← constructed s.compatible_recursive
  let set = as_win32 (set_recurse_subdirectories options true)
  ok (record { statics = record s { compatible_recursive = some set }; options = set })

unfoldable pub default : Statics → Result Call
default s = do
  options ← constructed s.default
  ok (record { statics = record s { default = some options }; options = options })

-- FromSearchOption, of an enumerator that a caller may have made from any number.
unfoldable pub from_search_option : Statics → (search_option : ℤ) → Result Call
from_search_option s search_option =
    if not (eqb_ℤ search_option (pos 0)) && not (eqb_ℤ search_option (pos 1))
    then throws out_of_range
    else if eqb_ℤ search_option (pos 1)
    then compatible_recursive s
    else compatible s

-- EnumerateDirectories of a path alone.
unfoldable pub enumerate_all_directories : Statics → (path : List ℕ) → Result (List (List ℕ))
enumerate_all_directories s path =
    compatible s >>= (λ call. ok (enumerate_directories path (b'*' ∷ []) call.options))

pub data Request : Type 0 where
  asks_compatible asks_recursive asks_default : Request
  asks_for : (search_option : ℤ) → Request

unfoldable pub serve : Statics → Request → Result Call
serve s asks_compatible = compatible s
serve s asks_recursive = compatible_recursive s
serve s asks_default = default s
serve s (asks_for search_option) = from_search_option s search_option

-- The statics after a call; one that throws has changed none.
abbrev pub statics_after : Statics → Result Call → Statics
statics_after s (throws e) = s
statics_after s (ok call) = call.statics

unfoldable pub serve_all : Statics → List Request → Statics
serve_all s [] = s
serve_all s (r ∷ rs) = serve_all (statics_after s (serve s r)) rs
