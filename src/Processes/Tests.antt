-- ===== src/Processes/Tests.antt =====
-- Status and stat files.
use nuke.Base.{ℕ, ◌≡◌, refl, arith, true, List, [], ◌∷◌, ◌++◌, Option, some}
use nuke.Base.Int.{pos}
use nuke.Base.Result.{ok}
use nuke.Text.Numbers.{stoi}
use nuke.Text.Lines.{NoLine}
use nuke.Processes.Names.{vm_hwm}
use nuke.Processes.Status.{Entry, ParsedStatus, create_content_map, colon_tab}
use nuke.Processes.Table.{DirectoryEntry, get_process_infos, enumerate_process_ids, ids_of}
use nuke.Processes.Reading.{IsEntry, print_entries, create_content_map-print_entries}
use nuke.Processes.Failing.{IsThrown, get_process_infos-IsThrown}

-- "a" is 7 and "b" is 9.
abbrev first : Entry
first = record { key = b'a' ∷ []; value = b'7' ∷ [] }

abbrev second : Entry
second = record { key = b'b' ∷ []; value = b'9' ∷ [] }

first-IsEntry : IsEntry first
first-IsEntry = record {
  key_colon = (omega arith, tt);
  value_colon = (omega arith, tt);
  line = (omega arith, (omega arith, (omega arith, (omega arith, tt))));
  given = λ e. ground (arith, e);
}

second-IsEntry : IsEntry second
second-IsEntry = record {
  key_colon = (omega arith, tt);
  value_colon = (omega arith, tt);
  line = (omega arith, (omega arith, (omega arith, (omega arith, tt))));
  given = λ e. ground (arith, e);
}

create_content_map-print_entries_example :
    create_content_map (print_entries (first ∷ second ∷ [])) ≡ ok (first ∷ second ∷ [])
create_content_map-print_entries_example =
    create_content_map-print_entries first (second ∷ []) (first-IsEntry, (second-IsEntry, tt))

abbrev unread : ParsedStatus
unread = record { vm_hwm = 1; vm_rss = 2; vm_data = 3; vm_swap = 4; vm_size = 5; vm_peak = 6 }

-- /proc has the processes 1 and 2, and every file holds the same text.
abbrev proc : Option (List DirectoryEntry)
proc = some (
    (record { name = b'1' ∷ []; is_directory = true })
    ∷ (record { name = b'2' ∷ []; is_directory = true })
    ∷ [])

-- A kernel thread's name with a colon in it.
abbrev thread_text : List ℕ
thread_text = b'N' ∷ b':' ∷ 9 ∷ b'k' ∷ b'/' ∷ b'0' ∷ b':' ∷ b'0' ∷ 10 ∷ b'V' ∷ 10 ∷ []

abbrev read_same : List ℕ → List ℕ
read_same path = thread_text

listed : enumerate_process_ids proc ≡ (pos 1 ∷ []) ++ pos 2 ∷ []
unfolding enumerate_process_ids ids_of stoi
listed = refl

no_peak : NoLine (vm_hwm ++ colon_tab) thread_text
no_peak = (
  refl,
  (
    λ e. refl,
    (
      λ e. refl,
      (
        λ e. refl,
        (
          λ e. refl,
          (
            λ e. refl,
            (λ e. refl, (λ e. refl, (λ e. refl, (λ e. refl, (λ e. refl, (λ e. refl, tt)))))),
          ),
        ),
      ),
    ),
  ),
)

get_process_infos-IsThrown_example : IsThrown (get_process_infos read_same proc)
get_process_infos-IsThrown_example =
    get_process_infos-IsThrown read_same (pos 2) no_peak proc (pos 1 ∷ []) [] listed

one_is : stoi (b'1' ∷ []) ≡ ok (pos 1)
unfolding stoi
one_is = refl
