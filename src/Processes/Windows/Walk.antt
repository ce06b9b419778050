-- ===== src/Processes/Windows/Walk.antt =====
-- _GetProcessInfos: the walk through the table of processes that the system has written.
use nuke.Base.{
  ℕ, zero, suc, ◌/◌, List, [], ◌∷◌, Bool, Option, none, some, ◌==◌, if◌then◌else◌, length,
}
use nuke.Base.Int.{ℤ, pos, ◌+ℤ◌, ltb_ℤ, eqb_ℤ}
use nuke.Base.Word.{i32, u32, of_u32, of_u64}
use nuke.Base.Result.{Result, ok, throws, ◌>>=◌}
use nuke.Base.Text.{decimal}
use nuke.Processes.Windows.Layout.{
  SystemProcessInformation, SystemThreadInformation, system_process_information_size,
  system_thread_information_size, memory_at, process_at, thread_at,
}
use nuke.Processes.Windows.ShortName.{get_process_short_name}

pub data ThreadWaitReason : Type 0 where
  executive free_page page_in system_allocation execution_delay suspended user_request
        event_pair_high event_pair_low lpc_receive lpc_reply virtual_memory page_out unknown :
      ThreadWaitReason

abbrev is : ℕ → ℤ → Bool
is n value = eqb_ℤ value (pos n)

unfoldable pub get_thread_wait_reason : (value : ℤ) → ThreadWaitReason
get_thread_wait_reason value =
    if is 0 value
    then executive
    else if is 7 value
    then executive
    else if is 1 value
    then free_page
    else if is 8 value
    then free_page
    else if is 2 value
    then page_in
    else if is 9 value
    then page_in
    else if is 3 value
    then system_allocation
    else if is 10 value
    then system_allocation
    else if is 4 value
    then execution_delay
    else if is 11 value
    then execution_delay
    else if is 5 value
    then suspended
    else if is 12 value
    then suspended
    else if is 6 value
    then user_request
    else if is 13 value
    then user_request
    else if is 14 value
    then event_pair_high
    else if is 15 value
    then event_pair_low
    else if is 16 value
    then lpc_receive
    else if is 17 value
    then lpc_reply
    else if is 18 value
    then virtual_memory
    else if is 19 value
    then page_out
    else unknown

pub record ThreadInfo : Type 0 where
  pub thread_id : ℕ
  pub process_id : ℤ
  pub base_priority : ℤ
  pub current_priority : ℤ
  pub start_address : ℕ
  pub thread_state : ℕ
  pub thread_wait_reason : ThreadWaitReason

pub record ProcessInfo : Type 0 where
  pub base_priority : ℤ
  pub process_name : List ℕ
  pub process_id : ℤ
  pub pool_paged_bytes : ℤ
  pub pool_non_paged_bytes : ℤ
  pub virtual_bytes : ℤ
  pub virtual_bytes_peak : ℤ
  pub working_set_peak : ℤ
  pub working_set : ℤ
  pub page_file_bytes_peak : ℤ
  pub page_file_bytes : ℤ
  pub private_bytes : ℤ
  pub session_id : ℤ
  pub handle_count : ℤ
  pub thread_info_list : List ThreadInfo

unfoldable pub thread_info_of : SystemThreadInformation → ThreadInfo
thread_info_of ti = record {
  thread_id = ti.unique_thread;
  process_id = of_u32 (u32 ti.unique_process);
  base_priority = of_u32 ti.base_priority;
  current_priority = of_u32 ti.priority;
  start_address = ti.start_address;
  thread_state = ti.thread_state;
  thread_wait_reason = get_thread_wait_reason (of_u32 ti.wait_reason);
}

-- `data.data() + offset`, and the threads from there on.
unfoldable pub thread_infos_from : List ℕ → (offset : ℤ) (count : ℕ) → Result (List ThreadInfo)
thread_infos_from bytes offset zero = ok []
thread_infos_from bytes offset (suc count) = do
  memory ← memory_at bytes offset
  ti ← thread_at memory
  rest ← thread_infos_from bytes (i32 (offset +ℤ pos system_thread_information_size)) count
  ok (thread_info_of ti ∷ rest)

-- A std::map from identifiers: in their order, and one entry for each.
unfoldable pub assign : ℤ → ProcessInfo → List ProcessInfo → List ProcessInfo
assign id info [] = info ∷ []
assign id info (x ∷ xs) =
    let rest = assign id info xs in
    if ltb_ℤ id x.process_id
    then info ∷ x ∷ xs
    else if ltb_ℤ x.process_id id
    then x ∷ rest
    else info ∷ xs

-- The name of a process whose name the system does not give.
abbrev pub name_of_id : ℤ → List ℕ
name_of_id id =
    if eqb_ℤ id (pos 4)
    then b'S' ∷ b'y' ∷ b's' ∷ b't' ∷ b'e' ∷ b'm' ∷ []
    else if eqb_ℤ id (pos 0)
    then b'I' ∷ b'd' ∷ b'l' ∷ b'e' ∷ []
    else decimal id

-- The wide characters at an address, converted to a string of bytes.
module _ (wide_text : (address count : ℕ) → List ℕ) where
  unfoldable pub process_name_of : (id : ℤ) (address size : ℕ) → Result (List ℕ)
  process_name_of id address size =
      if address == 0
      then ok (name_of_id id)
      else get_process_short_name (wide_text address (size / 2))

  unfoldable pub process_info_of : SystemProcessInformation → Result ProcessInfo
  process_info_of pi = do
    let id = of_u32 (u32 pi.unique_process_id)
    name ← process_name_of id pi.image_name_buffer pi.image_name_length
    ok (record {
      base_priority = of_u32 pi.base_priority;
      process_name = name;
      process_id = id;
      pool_paged_bytes = of_u64 pi.quota_paged_pool_usage;
      pool_non_paged_bytes = of_u64 pi.quota_non_paged_pool_usage;
      virtual_bytes = of_u64 pi.virtual_size;
      virtual_bytes_peak = of_u64 pi.peak_virtual_size;
      working_set_peak = of_u64 pi.peak_working_set_size;
      working_set = of_u64 pi.working_set_size;
      page_file_bytes_peak = of_u64 pi.peak_pagefile_usage;
      page_file_bytes = of_u64 pi.pagefile_usage;
      private_bytes = of_u64 pi.private_page_count;
      session_id = of_u32 pi.session_id;
      handle_count = of_u32 pi.handle_count;
      thread_info_list = [];
    })

  -- One round: the map after it, and NextEntryOffset. The threads are appended to the local object,
  -- behind the assignment that copied it.
  unfoldable pub visit :
      List ℕ
      → (offset : ℤ) (infos : List ProcessInfo)
      → Result (record { infos : List ProcessInfo; next : ℕ })
  visit bytes offset infos = do
    memory ← memory_at bytes offset
    pi ← process_at memory
    info ← process_info_of pi
    let assigned = assign info.process_id info infos
    threads ←
        thread_infos_from bytes (i32 (offset +ℤ pos system_process_information_size))
          pi.number_of_threads
    ok (record { infos = assigned; next = pi.next_entry_offset })

  abbrev after_visit :
      Result (record { infos : List ProcessInfo; next : ℕ })
      → (offset : ℤ) → (ℤ → List ProcessInfo → Option (Result (List ProcessInfo)))
      → Option (Result (List ProcessInfo))
  after_visit (throws e) offset again = some (throws e)
  after_visit (ok visited) offset again =
      if visited.next == 0
      then some (ok visited.infos)
      else again (i32 (offset +ℤ of_u32 visited.next)) visited.infos

  -- The loop; `none` is a loop that goes on after `fuel` rounds.
  unfoldable pub walk :
      List ℕ
      → (fuel : ℕ) (offset : ℤ) (infos : List ProcessInfo) → Option (Result (List ProcessInfo))
  walk bytes zero offset infos = none
  walk bytes (suc fuel) offset infos =
      after_visit (visit bytes offset infos) offset (walk bytes fuel)

  -- _GetProcessInfos. A table of entries that follow each other has fewer entries than bytes.
  unfoldable pub process_infos_of : List ℕ → Option (Result (List ProcessInfo))
  process_infos_of bytes = walk bytes (length bytes) (pos 0) []
