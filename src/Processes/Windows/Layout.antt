-- ===== src/Processes/Windows/Layout.antt =====
-- The system's structures in memory, as CrossPlatform/ProcessApi.Windows.cpp lays them out for 64 bits:
-- the members that the file reads, each at its place.
use nuke.Base.{ℕ, List, drop}
use nuke.Base.Int.{ℤ, pos, negsuc}
use nuke.Base.Result.{Result, ok, throws, undefined, ◌>>=◌}
use nuke.Base.Memory.{read_word}

-- SYSTEM_PROCESS_INFORMATION with its ImageName
pub record SystemProcessInformation : Type 0 where
  pub next_entry_offset : ℕ
  pub number_of_threads : ℕ
  pub image_name_length : ℕ
  pub image_name_buffer : ℕ
  pub base_priority : ℕ
  pub unique_process_id : ℕ
  pub handle_count : ℕ
  pub session_id : ℕ
  pub peak_virtual_size : ℕ
  pub virtual_size : ℕ
  pub peak_working_set_size : ℕ
  pub working_set_size : ℕ
  pub quota_paged_pool_usage : ℕ
  pub quota_non_paged_pool_usage : ℕ
  pub pagefile_usage : ℕ
  pub peak_pagefile_usage : ℕ
  pub private_page_count : ℕ

-- SYSTEM_THREAD_INFORMATION with its ClientId
pub record SystemThreadInformation : Type 0 where
  pub start_address : ℕ
  pub unique_process : ℕ
  pub unique_thread : ℕ
  pub priority : ℕ
  pub base_priority : ℕ
  pub thread_state : ℕ
  pub wait_reason : ℕ

abbrev pub system_process_information_size : ℕ
system_process_information_size = 256

abbrev pub system_thread_information_size : ℕ
system_thread_information_size = 80

-- `data.data() + offset`
unfoldable pub memory_at : List ℕ → (offset : ℤ) → Result (List ℕ)
memory_at bytes (pos offset) = ok (drop offset bytes)
memory_at bytes (negsuc n) = throws undefined

unfoldable pub member : (width offset : ℕ) → List ℕ → Result ℕ
member width offset bytes = read_word width (drop offset bytes)

unfoldable pub process_at : List ℕ → Result SystemProcessInformation
process_at bytes = do
  next_entry_offset ← member 4 0 bytes
  number_of_threads ← member 4 4 bytes
  image_name_length ← member 2 56 bytes
  image_name_buffer ← member 8 64 bytes
  base_priority ← member 4 72 bytes
  unique_process_id ← member 8 80 bytes
  handle_count ← member 4 96 bytes
  session_id ← member 4 100 bytes
  peak_virtual_size ← member 8 112 bytes
  virtual_size ← member 8 120 bytes
  peak_working_set_size ← member 8 136 bytes
  working_set_size ← member 8 144 bytes
  quota_paged_pool_usage ← member 8 160 bytes
  quota_non_paged_pool_usage ← member 8 176 bytes
  pagefile_usage ← member 8 184 bytes
  peak_pagefile_usage ← member 8 192 bytes
  private_page_count ← member 8 200 bytes
  ok (record {
    next_entry_offset = next_entry_offset;
    number_of_threads = number_of_threads;
    image_name_length = image_name_length;
    image_name_buffer = image_name_buffer;
    base_priority = base_priority;
    unique_process_id = unique_process_id;
    handle_count = handle_count;
    session_id = session_id;
    peak_virtual_size = peak_virtual_size;
    virtual_size = virtual_size;
    peak_working_set_size = peak_working_set_size;
    working_set_size = working_set_size;
    quota_paged_pool_usage = quota_paged_pool_usage;
    quota_non_paged_pool_usage = quota_non_paged_pool_usage;
    pagefile_usage = pagefile_usage;
    peak_pagefile_usage = peak_pagefile_usage;
    private_page_count = private_page_count;
  })

unfoldable pub thread_at : List ℕ → Result SystemThreadInformation
thread_at bytes = do
  start_address ← member 8 32 bytes
  unique_process ← member 8 40 bytes
  unique_thread ← member 8 48 bytes
  priority ← member 4 56 bytes
  base_priority ← member 4 60 bytes
  thread_state ← member 4 68 bytes
  wait_reason ← member 4 72 bytes
  ok (record {
    start_address = start_address;
    unique_process = unique_process;
    unique_thread = unique_thread;
    priority = priority;
    base_priority = base_priority;
    thread_state = thread_state;
    wait_reason = wait_reason;
  })
