-- ===== src/Path/Tests.antt =====
-- Runs of the functions on paths, and their theorems at concrete values.
use nuke.Base.{ℕ, ◌≡◌, refl, arith, List, [], ◌∷◌, ◌++◌}
use nuke.Base.Result.{ok}
use nuke.Path.Linux.{linux, slash, is_path_rooted}
use nuke.Path.Windows.{
  windows, get_root_length, unc_root, device_root, drive_root, skip_share, is_device, is_extended,
  is_device_unc, is_valid_drive_char, is_directory_separator,
}
use nuke.Path.{
  combine, join, join_from, join_step, get_file_name, get_directory_name, last_char, file_name_from,
  get_path_root,
}
use nuke.Path.Names.{FileName, get_file_name-FileName, get_directory_name_lem}
use nuke.Path.Combining.{combine-split}

-- "usr", "bin", "/etc" and "usr/bin".
abbrev usr : List ℕ
usr = 117 ∷ 115 ∷ 114 ∷ []

abbrev bin : List ℕ
bin = 98 ∷ 105 ∷ 110 ∷ []

abbrev etc : List ℕ
etc = 47 ∷ 101 ∷ 116 ∷ 99 ∷ []

abbrev share : List ℕ
share = 92 ∷ 92 ∷ 97 ∷ 92 ∷ 98 ∷ 92 ∷ 99 ∷ []

-- "C:x"
abbrev drive_file : List ℕ
drive_file = 67 ∷ 58 ∷ 120 ∷ []

runs :
    (join linux (usr ∷ etc ∷ []) ≡ usr ++ etc)
    × (get_root_length share ≡ 5)
    × (get_file_name windows drive_file ≡ ok (58 ∷ 120 ∷ []))
unfolding join join_from join_step last_char linux get_root_length unc_root skip_share is_device
    is_extended is_device_unc is_directory_separator is_valid_drive_char get_file_name
    file_name_from get_path_root windows nuke.Path.is_path_rooted nuke.Path.Windows.is_path_rooted
    nuke.Path.Linux.is_directory_separator
runs = (refl, refl, refl)

get_file_name-FileName_example :
    FileName (usr ++ slash ∷ bin) (get_file_name linux (usr ++ slash ∷ bin))
get_file_name-FileName_example = get_file_name-FileName (usr ++ slash ∷ bin)

get_directory_name_lem_example :
    (get_directory_name linux (usr ++ slash ∷ bin) ≡ usr)
    × (get_file_name linux (usr ++ slash ∷ bin) ≡ ok bin)
unfolding last_char
get_directory_name_lem_example = get_directory_name_lem usr bin (omega arith) refl refl

combine-split_example :
    (combine linux (usr ∷ bin ∷ []) ≡ usr ++ slash ∷ bin)
    × (get_directory_name linux (combine linux (usr ∷ bin ∷ [])) ≡ usr)
    × (get_file_name linux (combine linux (usr ∷ bin ∷ [])) ≡ ok bin)
unfolding last_char
combine-split_example = combine-split usr bin (omega arith) (omega arith) refl refl
