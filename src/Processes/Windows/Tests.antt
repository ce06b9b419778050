-- ===== src/Processes/Windows/Tests.antt =====
-- Runs of the code for Windows, and its theorems at concrete values.
use nuke.Base.{
  ℕ, ◌-◌, ◌/◌, ◌*◌, ◌≤◌, ◌<◌, ◌≡◌, refl, arith, List, [], ◌∷◌, ◌++◌, Option, some, min, length,
  take, replicate, inr,
}
use nuke.Base.Int.{ℤ, pos, negsuc, ◌+ℤ◌, ◌-ℤ◌}
use nuke.Base.Result.{ok}
use nuke.Processes.Windows.ShortName.{
  c_string, equal_ignoring_case, last_marks, cut_out, get_process_short_name,
}
use nuke.Processes.Windows.Naming.{Shortened}
use nuke.Processes.Windows.Shortening.{get_process_short_name-Shortened}
use nuke.Processes.Windows.Ids.{Enumeration, get_process_ids}
use nuke.Processes.Windows.Enumerating.{get_process_ids_ends}
use nuke.Processes.Windows.Walk.{ProcessInfo, process_name_of}
use nuke.Processes.Windows.Table.{Entry, IsEntry, print_table}
use nuke.Processes.Windows.Collecting.{IsSorted, find_id}
use nuke.Processes.Windows.Answer.{last_with}
use nuke.Processes.Windows.Walking.{info_of}
use nuke.Processes.Windows.Query.{Reply, initial_size, get_process_infos}
use nuke.Processes.Windows.Listing.{
  idle_entry, get_process_infos-print_table, get_process_infos-too_large,
}

-- "\Ca.ExE" and "\v.0\c"
short_names :
    (get_process_short_name (b'\\' ∷ b'C' ∷ b'a' ∷ b'.' ∷ b'E' ∷ b'x' ∷ b'E' ∷ [])
      ≡ ok (b'C' ∷ b'a' ∷ []))
    × (get_process_short_name (b'\\' ∷ b'v' ∷ b'.' ∷ b'0' ∷ b'\\' ∷ b'c' ∷ []) ≡ ok (b'c' ∷ []))
unfolding get_process_short_name cut_out last_marks equal_ignoring_case c_string ◌+ℤ◌ ◌-ℤ◌
short_names = (refl, refl)

abbrev folder : List ℕ
folder = b'C' ∷ b':' ∷ b'\\' ∷ []

abbrev program : List ℕ
program = b'c' ∷ b'.' ∷ b'e' ∷ b'X' ∷ b'e' ∷ []

get_process_short_name-Shortened_example :
    (short : List ℕ) × (get_process_short_name (folder ++ program) ≡ ok short)
    × Shortened program short
get_process_short_name-Shortened_example =
    get_process_short_name-Shortened folder program (inr (b'C' ∷ b':' ∷ [], refl)) (ground arith)
      (ground arith) (omega arith)

abbrev two_ids : List ℤ
two_ids = pos 4 ∷ pos 8 ∷ []

abbrev two_processes : ℕ → Option Enumeration
two_processes size =
    some
      (record { written = take (size / 4) two_ids; needed = 4 * min (size / 4) (length two_ids) })

get_process_ids_ends_example :
    (size : ℕ) × (4 * length two_ids < size)
    × (get_process_ids two_processes 1
        ≡ some (ok (two_ids ++ replicate (size - length two_ids) (pos 0))))
get_process_ids_ends_example =
    get_process_ids_ends two_processes two_ids 0 (λ size. refl) (omega arith) (omega arith)

-- The process with number 4, which has no name of its own, and a program.
abbrev no_text : (address count : ℕ) → List ℕ
no_text address count = program

abbrev system_entry : Entry
system_entry = record idle_entry {
  process_id = pos 4;
  name = b'S' ∷ b'y' ∷ b's' ∷ b't' ∷ b'e' ∷ b'm' ∷ [];
  number_of_threads = 1;
  threads = replicate 80 7;
  gap = 1 ∷ 2 ∷ [];
}

abbrev program_entry : Entry
program_entry = record idle_entry {
  process_id = pos 2;
  name = b'c' ∷ [];
  name_length = 10;
  name_address = 4096;
  private_bytes = pos 5000;
}

system_entry-IsEntry : IsEntry system_entry
system_entry-IsEntry = ground arith

program_entry-IsEntry : IsEntry program_entry
program_entry-IsEntry = ground arith

system_name :
    process_name_of no_text (pos 4) 0 0 ≡ ok (b'S' ∷ b'y' ∷ b's' ∷ b't' ∷ b'e' ∷ b'm' ∷ [])
unfolding process_name_of
system_name = refl

program_name : process_name_of no_text (pos 2) 4096 10 ≡ ok (b'c' ∷ [])
unfolding process_name_of get_process_short_name cut_out last_marks equal_ignoring_case c_string
    ◌+ℤ◌ ◌-ℤ◌
program_name = refl

abbrev table : List ℕ
table = print_table system_entry (program_entry ∷ []) []

abbrev table_query : ℕ → Reply
table_query size = record { written = table; return_length = length table; status = pos 0 }

table_fits : length table ≤ initial_size
unfolding print_table initial_size
table_fits = omega arith

get_process_infos-print_table_example :
    (infos : List ProcessInfo) × (get_process_infos no_text (some table_query) ≡ some (ok infos))
    × IsSorted infos
    × ((id : ℤ) → find_id id infos ≡ last_with id (system_entry ∷ program_entry ∷ []))
get_process_infos-print_table_example =
    get_process_infos-print_table no_text table_query system_entry (program_entry ∷ []) [] (pos 0)
      ((system_entry-IsEntry, system_name), ((program_entry-IsEntry, program_name), tt)) table_fits
      refl

abbrev large_query : ℕ → Reply
large_query size = record { written = []; return_length = 2000000000; status = negsuc 1073741819 }

large : initial_size < 2000000000
unfolding initial_size
large = omega arith

get_process_infos-too_large_example :
    get_process_infos no_text (some large_query) ≡ some (ok (info_of idle_entry ∷ []))
get_process_infos-too_large_example =
    get_process_infos-too_large no_text large_query 2000000000 (negsuc 1073741819) large
      (omega arith) refl
