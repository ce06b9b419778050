-- ===== src/Processes/Status.antt =====
-- CrossPlatform/ProcessApi.Linux.cpp: the parsers of /proc/<pid>/status.
use nuke.Base.{
  ℕ, ◌+◌, ◌*◌, ◌==◌, Bool, true, false, ◌&&◌, List, [], ◌∷◌, Option, none, some, if◌then◌else◌,
}
use nuke.Base.Int.{ℤ}
use nuke.Base.Word.{u64}
use nuke.Base.Result.{Result, ok, throws, out_of_range, ◌>>=◌}
use nuke.Text.{split}
use nuke.Text.Numbers.{stoul}
use nuke.Processes.Names.{
  vm_hwm, vm_rss, vm_data, vm_swap, vm_size, vm_peak, vm_stk, get_status_file_path_for_process,
}

pub record ParsedStatus : Type 0 where
  pub vm_hwm : ℕ
  pub vm_rss : ℕ
  pub vm_data : ℕ
  pub vm_swap : ℕ
  pub vm_size : ℕ
  pub vm_peak : ℕ

abbrev pub same_bytes : List ℕ → List ℕ → Bool
same_bytes [] [] = true
same_bytes [] (y ∷ ys) = false
same_bytes (x ∷ xs) [] = false
same_bytes (x ∷ xs) (y ∷ ys) = (x == y) && same_bytes xs ys

-- An entry of the map. The list has the entries in the order in which they were assigned.
pub record Entry : Type 0 where
  pub key : List ℕ
  pub value : List ℕ

-- `v.at(i)` of the two pieces of a line.
unfoldable pub entry_of : List (List ℕ) → Result Entry
entry_of [] = throws out_of_range
entry_of (key ∷ []) = throws out_of_range
entry_of (key ∷ value ∷ more) = ok (record { key = key; value = value })

abbrev pub newline : List ℕ
newline = 10 ∷ []

abbrev pub colon_tab : List ℕ
colon_tab = b':' ∷ 9 ∷ []

unfoldable pub add_lines : List (List ℕ) → Result (List Entry)
add_lines [] = ok []
add_lines (line ∷ lines) =
    entry_of (split line colon_tab)
    >>= (λ entry. add_lines lines >>= (λ entries. ok (entry ∷ entries)))

-- CreateProcStatusFileContentMap, from the text of the file.
unfoldable pub create_content_map : List ℕ → Result (List Entry)
create_content_map [] = ok []
create_content_map (x ∷ xs) = add_lines (split (x ∷ xs) newline)

-- `at`: the last assignment to a key counts.
unfoldable pub at : List Entry → List ℕ → Option (List ℕ)
at [] key = none
at (entry ∷ entries) key = elim (at entries key) [
  | some value ↦ some value
  | none ↦ if same_bytes entry.key key then some entry.value else none
]

abbrev found : Option (List ℕ) → Result (List ℕ)
found none = throws out_of_range
found (some value) = ok value

unfoldable pub amount : List Entry → List ℕ → Result ℕ
amount entries key = found (at entries key) >>= (λ value. stoul value)

unfoldable pub parse_entries : List Entry → Result ParsedStatus
parse_entries entries = do
  hwm ← amount entries vm_hwm
  rss ← amount entries vm_rss
  data_size ← amount entries vm_data
  swap ← amount entries vm_swap
  size ← amount entries vm_size
  peak ← amount entries vm_peak
  stack ← amount entries vm_stk
  ok (record {
    vm_hwm = u64 (hwm * 1024);
    vm_rss = u64 (rss * 1024);
    vm_data = u64 (u64 (data_size + stack) * 1024);
    vm_swap = u64 (swap * 1024);
    vm_size = u64 (size * 1024);
    vm_peak = u64 (peak * 1024);
  })

-- TryParseStatusFile(statusFilePath), which throws.
unfoldable pub parse_status : (text : List ℕ) → Result ParsedStatus
parse_status text = create_content_map text >>= (λ entries. parse_entries entries)

abbrev pub or_keep :
    ParsedStatus → Result ParsedStatus → record { parsed : Bool; result : ParsedStatus }
or_keep result (throws e) = record { parsed = false; result = result }
or_keep result (ok status) = record { parsed = true; result = status }

-- TryParseStatusFile(statusFilePath, result), which catches everything and keeps `result` then.
unfoldable pub try_parse_status :
    (text : List ℕ) (result : ParsedStatus) → record { parsed : Bool; result : ParsedStatus }
try_parse_status text result = or_keep result (parse_status text)

-- TryReadStatusFile, in its two forms.
module _ (read_all_text : List ℕ → List ℕ) where
  unfoldable pub read_status_file : (pid : ℤ) → Result ParsedStatus
  read_status_file pid = parse_status (read_all_text (get_status_file_path_for_process pid))

  unfoldable pub try_read_status_file :
      (pid : ℤ) (result : ParsedStatus) → record { parsed : Bool; result : ParsedStatus }
  try_read_status_file pid result =
      try_parse_status (read_all_text (get_status_file_path_for_process pid)) result
