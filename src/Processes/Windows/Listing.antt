-- ===== src/Processes/Windows/Listing.antt =====
-- GetProcessInfos as a whole: a table that fits into its buffer, and one that does not.
use nuke.Base.{
  ℕ, ◌+◌, ◌-◌, ◌^◌, ◌≤◌, ◌<◌, ◌≡◌, refl, sym, ap, ◌∙◌, List, [], ◌∷◌, ◌++◌, some, le→leb, length,
  drop, replicate, length-append, length-replicate, append_nil, take_all, replicate_eq,
  replicate-add, arith,
}
use nuke.Base.Int.{ℤ, pos}
use nuke.Base.Word.{u32}
use nuke.Base.Result.{ok}
use nuke.Base.Text.{take-length}
use nuke.Processes.Windows.Walk.{ProcessInfo, assign, name_of_id, process_name_of}
use nuke.Processes.Windows.Table.{Entry, IsEntry, print_table}
use nuke.Processes.Windows.Collecting.{IsSorted, find_id}
use nuke.Processes.Windows.Walking.{info_of}
use nuke.Processes.Windows.Query.{
  Reply, initial_size, dynamic_invoke, resized, system_process_information, get_process_infos,
}
use nuke.Processes.Windows.Answer.{
  last_with, assign_all, process_infos_of-print_table, assigned-IsSorted, find_id-assigned,
}
use nuke.Processes.Windows.Visiting.{AllEntries}

size_word : u32 initial_size ≡ initial_size
unfolding initial_size
size_word = refl

-- What a query that writes no more than the buffer holds leaves behind.
buffer_after :
    (query : ℕ → Reply) (reply : Reply)
    → query initial_size ≡ reply
    → length reply.written ≤ initial_size
    → system_process_information (some query)
      ≡ ok (
          resized reply.return_length
            (reply.written ++ drop (length reply.written) (replicate initial_size 0)))
unfolding system_process_information dynamic_invoke
buffer_after query reply answers fits =
    let whole = length-replicate {A = ℕ} initial_size 0 in
    rw (whole, size_word, answers, le→leb (length reply.written) initial_size fits) refl

-- A table that was written is what is left when the buffer is cut to its length.
cut_back : (table rest : List ℕ) → resized (length table) (table ++ rest) ≡ table
cut_back table rest =
    let none_left : length table - length (table ++ rest) ≡ 0 =
      omega (arith, length-append table rest) in
    rw (take-length table rest, none_left) (append_nil table)

-- A buffer of zeros grows by zeros.
resized_zeros : (m n : ℕ) → m ≤ n → resized n (replicate m 0) ≡ replicate n 0
resized_zeros m n h =
    let whole = length-replicate {A = ℕ} m 0 in
    rw (take_all {A = ℕ} n (replicate m 0) (omega (arith, whole)), whole)
      (replicate-add {A = ℕ} m (n - m) 0 ∙ replicate_eq {A = ℕ} (m + (n - m)) n 0 (omega arith))

-- What zeros are read as.
abbrev pub idle_entry : Entry
idle_entry = record {
  process_id = pos 0;
  base_priority = pos 0;
  handle_count = pos 0;
  session_id = pos 0;
  virtual_bytes_peak = pos 0;
  virtual_bytes = pos 0;
  working_set_peak = pos 0;
  working_set = pos 0;
  pool_paged_bytes = pos 0;
  pool_non_paged_bytes = pos 0;
  page_file_bytes = pos 0;
  page_file_bytes_peak = pos 0;
  private_bytes = pos 0;
  name = name_of_id (pos 0);
  name_length = 0;
  name_address = 0;
  number_of_threads = 0;
  threads = [];
  gap = [];
  reserved = λ k. 0;
}

zeros-print_table :
    (n : ℕ) → 256 ≤ n → replicate n 0 ≡ print_table idle_entry [] (replicate (n - 256) 0)
unfolding print_table
zeros-print_table n h =
    replicate_eq {A = ℕ} n (256 + (n - 256)) 0 (omega arith)
    ∙ sym (replicate-add {A = ℕ} 256 (n - 256) 0)

initial_size_bounds : (1000000 < initial_size) × (initial_size < 2 ^ 21)
unfolding initial_size
initial_size_bounds = omega arith

-- Let the system answer the query with a table that fits into the buffer, with numbers in their
-- ranges, any bytes between and behind its entries and in their reserved members, and names as
-- `GetProcessShortName` makes them. Then `GetProcessInfos` returns. The processes are in the order of
-- their identifiers, no identifier stands twice, and each has the numbers and the name of its last
-- entry, and no threads.
pub get_process_infos-print_table :
    (wide_text : (address count : ℕ) → List ℕ) (query : ℕ → Reply) (e : Entry) (es : List Entry)
    (slack : List ℕ) (status : ℤ)
    → AllEntries wide_text (e ∷ es)
    → length (print_table e es slack) ≤ initial_size
    → query initial_size ≡ record {
      written = print_table e es slack;
      return_length = length (print_table e es slack);
      status = status;
    }
    → (infos : List ProcessInfo) × (get_process_infos wide_text (some query) ≡ some (ok infos))
      × IsSorted infos
      × ((id : ℤ) → find_id id infos ≡ last_with id (e ∷ es))
unfolding get_process_infos
get_process_infos-print_table wide_text query e es slack status all fits answers =
    let table = print_table e es slack in
    let reply : Reply = record { written = table; return_length = length table; status = status } in
    let read = buffer_after query reply answers fits in
    let cut = cut_back table (drop (length table) (replicate initial_size 0)) in
    (
      assign_all [] (e ∷ es),
      rw (read, cut)
          (process_infos_of-print_table wide_text e es slack all
            (omega (arith, initial_size_bounds))),
      assigned-IsSorted (e ∷ es),
      λ id. find_id-assigned id (e ∷ es),
    )

pub idle-IsEntry : IsEntry idle_entry
idle-IsEntry = record {
  process_id = omega arith;
  base_priority = omega arith;
  handle_count = omega arith;
  session_id = omega arith;
  virtual_bytes_peak = omega arith;
  virtual_bytes = omega arith;
  working_set_peak = omega arith;
  working_set = omega arith;
  pool_paged_bytes = omega arith;
  pool_non_paged_bytes = omega arith;
  page_file_bytes = omega arith;
  page_file_bytes_peak = omega arith;
  private_bytes = omega arith;
  name_length = omega arith;
  name_address = omega arith;
  threads = refl;
}

-- If the table is larger than the buffer of `GetProcessInfos`, and the system writes nothing and stores
-- the size that it needs, fewer than 2^31 bytes, then the call returns one process, with identifier
-- 0 and the name Idle, whatever the status was.
pub get_process_infos-too_large :
    (wide_text : (address count : ℕ) → List ℕ) (query : ℕ → Reply) (needed : ℕ) (status : ℤ)
    → initial_size < needed
    → needed < 2 ^ 31
    → query initial_size ≡ record { written = []; return_length = needed; status = status }
    → get_process_infos wide_text (some query) ≡ some (ok (info_of idle_entry ∷ []))
unfolding get_process_infos process_name_of assign
get_process_infos-too_large wide_text query needed status large small answers =
    let reply : Reply = record { written = []; return_length = needed; status = status } in
    let read = buffer_after query reply answers (omega arith) in
    let zeros = resized_zeros initial_size needed (omega arith) in
    let table = zeros-print_table needed (omega (arith, initial_size_bounds)) in
    let slack = replicate (needed - 256) 0 in
    let fits : length (print_table idle_entry [] slack) < 2 ^ 31 =
      omega (arith, ap length table, length-replicate {A = ℕ} needed 0) in
    rw (read, zeros, table)
      (process_infos_of-print_table wide_text idle_entry [] slack ((idle-IsEntry, refl), tt) fits)
