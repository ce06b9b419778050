-- ===== src/Processes/Failing.antt =====
-- When nothing is returned for a status or a stat file.
use nuke.Base.{ℕ, ◌≤◌, ◌≡◌, refl, ap, ◌∙◌, arith, false, List, [], ◌∷◌, ◌++◌, Option}
use nuke.Base.Int.{ℤ}
use nuke.Base.Result.{Result, Exception, ok, throws, out_of_range, invalid_argument, ◌>>=◌}
use nuke.Base.Memory.{index}
use nuke.Base.Text.{IsFreeOf}
use nuke.Text.{split}
use nuke.Text.Splitting.{
  print_ended, split-print_ended, split-print_joined, split_empty_end, AllFree,
}
use nuke.Text.Numbers.{stoi}
use nuke.Text.Lines.{NoLine}
use nuke.Processes.Missing.{parse_status-missing}
use nuke.Processes.Names.{vm_hwm, get_status_file_path_for_process}
use nuke.Processes.Status.{
  Entry, ParsedStatus, entry_of, add_lines, create_content_map, parse_status, try_parse_status,
  colon_tab, read_status_file,
}
use nuke.Processes.Stat.{read_stat_file, parse_parts, parse_stat}
use nuke.Processes.Table.{
  DirectoryEntry, create_process_info, infos_of, get_process_infos, enumerate_process_ids,
}
use nuke.Processes.Reading.{
  AreEntries, lines_of, lines_of-AllFree, create_content_map_given, not_empty_ended,
  entry_of-print_entry,
}

-- A key without a value: the line ends behind the tab.
abbrev pub bare_line : List ℕ → List ℕ
bare_line key = key ++ colon_tab

entry_of-bare_line :
    (key : List ℕ)
    → IsFreeOf b':' key
    → entry_of (split (bare_line key) colon_tab) ≡ throws out_of_range
unfolding entry_of
entry_of-bare_line key free = ap entry_of (split_empty_end b':' (9 ∷ []) key free)

add_lines-bare_line :
    (es : List Entry) (key : List ℕ) (more : List (List ℕ))
    → AreEntries es
    → IsFreeOf b':' key
    → add_lines (lines_of es ++ bare_line key ∷ more) ≡ throws out_of_range
unfolding add_lines
add_lines-bare_line [] key more tt free = rw (entry_of-bare_line key free) refl
add_lines-bare_line (e ∷ es) key more (h, hs) free =
    rw (entry_of-print_entry e.key e.value h.key_colon h.value_colon h.given)
      (rw (add_lines-bare_line es key more hs free) refl)

AllFree-append :
    (ps qs : List (List ℕ)) → AllFree 10 [] ps → AllFree 10 [] qs → AllFree 10 [] (ps ++ qs)
AllFree-append [] qs hp hq = hq
AllFree-append (p ∷ ps) qs (h, hs) hq = (h, AllFree-append ps qs hs hq)

split_lines :
    (ps : List (List ℕ)) (q : List ℕ) (qs : List (List ℕ))
    → AllFree 10 [] (ps ++ q ∷ qs)
    → create_content_map (print_ended 10 [] (ps ++ q ∷ qs)) ≡ add_lines (ps ++ q ∷ qs)
split_lines [] q qs free =
    create_content_map_given _ (not_empty_ended q qs)
    ∙ ap add_lines (split-print_ended 10 [] q qs free)
split_lines (p ∷ ps) q qs free =
    create_content_map_given _ (not_empty_ended p (ps ++ q ∷ qs))
    ∙ ap add_lines (split-print_ended 10 [] p (ps ++ q ∷ qs) free)

-- The text of good lines, a line with a bare key, and any further lines.
abbrev pub with_bare_line : List Entry → List ℕ → List (List ℕ) → List ℕ
with_bare_line es key more = print_ended 10 [] (lines_of es ++ bare_line key ∷ more)

-- If any line of a status file has a key and no value, behind lines of proper entries, the throwing
-- `TryParseStatusFile` throws out_of_range, whatever follows, and the other one returns false and
-- leaves the result as it was.
pub parse_status-bare_line :
    (es : List Entry) (key : List ℕ) (more : List (List ℕ)) (before : ParsedStatus)
    → AreEntries es
    → IsFreeOf b':' key
    → AllFree 10 [] (bare_line key ∷ more)
    → (parse_status (with_bare_line es key more) ≡ throws out_of_range)
      × (try_parse_status (with_bare_line es key more) before
          ≡ (record { parsed = false; result = before }))
unfolding parse_status try_parse_status
parse_status-bare_line es key more before h free lines =
    let map_is =
      split_lines (lines_of es) (bare_line key) more
        (AllFree-append (lines_of es) (bare_line key ∷ more) (lines_of-AllFree es h) lines)
      ∙ add_lines-bare_line es key more h free in
    (rw (map_is) refl, rw (map_is) refl)

pub data IsThrown {A : Type 0} : Result A → Type 0 where
  thrown : (e : Exception) → IsThrown (throws e)

first-IsThrown :
    {A B : Type 0} (r : Result A) (next : A → Result B) → IsThrown r → IsThrown (r >>= next)
first-IsThrown r next (thrown e) = thrown e

second-IsThrown :
    {A B : Type 0} (r : Result A) (next : A → Result B)
    → ((a : A) → IsThrown (next a))
    → IsThrown (r >>= next)
second-IsThrown (throws e) next later = thrown e
second-IsThrown (ok a) next later = later a

-- Nothing is asked of the rest of the status file.
module _ (read_all_text : List ℕ → List ℕ) (pid : ℤ)
    (missing : NoLine
      (vm_hwm ++ colon_tab)
      (read_all_text (get_status_file_path_for_process pid))) where
  read_status_file-missing : read_status_file read_all_text pid ≡ throws out_of_range
  unfolding read_status_file
  read_status_file-missing =
      parse_status-missing (read_all_text (get_status_file_path_for_process pid)) missing

  create_process_info-IsThrown : IsThrown (create_process_info read_all_text pid)
  unfolding create_process_info
  create_process_info-IsThrown =
      second-IsThrown (read_stat_file read_all_text pid) _
        (λ stat. rw (read_status_file-missing) (thrown out_of_range))

  infos_of-IsThrown :
      (before after : List ℤ) → IsThrown (infos_of read_all_text (before ++ pid ∷ after))
  unfolding infos_of
  infos_of-IsThrown [] after =
      first-IsThrown (create_process_info read_all_text pid) _ create_process_info-IsThrown
  infos_of-IsThrown (other ∷ before) after =
      second-IsThrown (create_process_info read_all_text other) _ (λ info.
        first-IsThrown (infos_of read_all_text (before ++ pid ∷ after)) _
          (infos_of-IsThrown before after))

  -- If /proc lists a process and no line of the text read from its status file begins with "VmHWM", a
  -- colon and a tab, `GetProcessInfos` throws, whatever else that text holds and whatever the files
  -- of the other processes are.
  pub get_process_infos-IsThrown :
      (proc : Option (List DirectoryEntry)) (before after : List ℤ)
      → enumerate_process_ids proc ≡ before ++ pid ∷ after
      → IsThrown (get_process_infos read_all_text proc)
  unfolding get_process_infos
  get_process_infos-IsThrown proc before after listed = rw (listed) (infos_of-IsThrown before after)

-- A stat file whose second piece is cut in two by a space in the name of the program.
letter-throws : (c : ℕ) → b'A' ≤ c → c ≤ b'Z' → stoi (c ∷ []) ≡ throws invalid_argument
unfolding stoi
letter-throws c low high = ground (arith, low, high)

abbrev pub spaced_stat : (front back : List ℕ) (state : ℕ) → List (List ℕ) → List (List ℕ)
spaced_stat front back state more = front ∷ back ∷ (state ∷ []) ∷ more

-- If the program's name in a stat file has one space, so that it is two pieces, `TryParseStatFile`
-- takes the state, a capital letter, for the parent's number and throws invalid_argument.
pub parse_stat-spaced_stat :
    (pid front back : List ℕ) (state : ℕ) (more : List (List ℕ)) (y : ℕ) (ys : List ℕ) (number : ℤ)
    → AllFree 32 [] (pid ∷ spaced_stat front back state more)
    → IsFreeOf 32 (y ∷ ys)
    → stoi pid ≡ ok number
    → b'A' ≤ state
    → state ≤ b'Z'
    → parse_stat (print_ended 32 [] (pid ∷ spaced_stat front back state more) ++ y ∷ ys)
      ≡ throws invalid_argument
unfolding parse_stat parse_parts index
parse_stat-spaced_stat pid front back state more y ys number free last is_number low high =
    rw (split-print_joined 32 [] pid (spaced_stat front back state more) y ys free last)
      (rw (is_number) (rw (letter-throws state low high) refl))
