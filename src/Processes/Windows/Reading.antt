-- ===== src/Processes/Windows/Reading.antt =====
-- The members of an entry are read at the places where they stand.
use nuke.Base.{ℕ, ◌^◌, ◌<◌, ◌≡◌, refl, List, arith}
use nuke.Base.Int.{ℤ}
use nuke.Base.Word.{to_u32, to_u64}
use nuke.Base.Result.{ok}
use nuke.Base.Memory.{read_word-word_bytes}
use nuke.Processes.Windows.Layout.{member, SystemProcessInformation, process_at}
use nuke.Processes.Windows.Table.{Entry, IsEntry, header}

-- What the code sees of an entry.
abbrev pub seen : (next : ℕ) → Entry → SystemProcessInformation
seen next e = record {
  next_entry_offset = next;
  number_of_threads = e.number_of_threads;
  image_name_length = e.name_length;
  image_name_buffer = e.name_address;
  base_priority = to_u32 e.base_priority;
  unique_process_id = to_u32 e.process_id;
  handle_count = to_u32 e.handle_count;
  session_id = to_u32 e.session_id;
  peak_virtual_size = to_u64 e.virtual_bytes_peak;
  virtual_size = to_u64 e.virtual_bytes;
  peak_working_set_size = to_u64 e.working_set_peak;
  working_set_size = to_u64 e.working_set;
  quota_paged_pool_usage = to_u64 e.pool_paged_bytes;
  quota_non_paged_pool_usage = to_u64 e.pool_non_paged_bytes;
  pagefile_usage = to_u64 e.page_file_bytes;
  peak_pagefile_usage = to_u64 e.page_file_bytes_peak;
  private_page_count = to_u64 e.private_bytes;
}

to_u32-word : (z : ℤ) → to_u32 z < 256 ^ 4
to_u32-word z = ground arith

to_u64-word : (z : ℤ) → to_u64 z < 256 ^ 8
to_u64-word z = ground arith

module _ (next : ℕ) (e : Entry) (rest : List ℕ) (valid : IsEntry e) (next_word : next < 2 ^ 32)
    (threads_word : e.number_of_threads < 2 ^ 32) where
  read_next_entry_offset : member 4 0 (header next e rest) ≡ ok next
  unfolding member
  read_next_entry_offset = read_word-word_bytes 4 next _ (omega arith)

  read_number_of_threads : member 4 4 (header next e rest) ≡ ok e.number_of_threads
  unfolding member
  read_number_of_threads = read_word-word_bytes 4 e.number_of_threads _ (omega arith)

  read_image_name_length : member 2 56 (header next e rest) ≡ ok e.name_length
  unfolding member
  read_image_name_length = read_word-word_bytes 2 e.name_length _ (omega (arith, valid.name_length))

  read_image_name_buffer : member 8 64 (header next e rest) ≡ ok e.name_address
  unfolding member
  read_image_name_buffer =
      read_word-word_bytes 8 e.name_address _ (omega (arith, valid.name_address))

  read_base_priority : member 4 72 (header next e rest) ≡ ok (to_u32 e.base_priority)
  unfolding member
  read_base_priority =
      read_word-word_bytes 4 (to_u32 e.base_priority) _ (to_u32-word e.base_priority)

  read_unique_process_id : member 8 80 (header next e rest) ≡ ok (to_u32 e.process_id)
  unfolding member
  read_unique_process_id =
      read_word-word_bytes 8 (to_u32 e.process_id) _ (omega (arith, to_u32-word e.process_id))

  read_handle_count : member 4 96 (header next e rest) ≡ ok (to_u32 e.handle_count)
  unfolding member
  read_handle_count = read_word-word_bytes 4 (to_u32 e.handle_count) _ (to_u32-word e.handle_count)

  read_session_id : member 4 100 (header next e rest) ≡ ok (to_u32 e.session_id)
  unfolding member
  read_session_id = read_word-word_bytes 4 (to_u32 e.session_id) _ (to_u32-word e.session_id)

  read_peak_virtual_size : member 8 112 (header next e rest) ≡ ok (to_u64 e.virtual_bytes_peak)
  unfolding member
  read_peak_virtual_size =
      read_word-word_bytes 8 (to_u64 e.virtual_bytes_peak) _ (to_u64-word e.virtual_bytes_peak)

  read_virtual_size : member 8 120 (header next e rest) ≡ ok (to_u64 e.virtual_bytes)
  unfolding member
  read_virtual_size =
      read_word-word_bytes 8 (to_u64 e.virtual_bytes) _ (to_u64-word e.virtual_bytes)

  read_peak_working_set_size : member 8 136 (header next e rest) ≡ ok (to_u64 e.working_set_peak)
  unfolding member
  read_peak_working_set_size =
      read_word-word_bytes 8 (to_u64 e.working_set_peak) _ (to_u64-word e.working_set_peak)

  read_working_set_size : member 8 144 (header next e rest) ≡ ok (to_u64 e.working_set)
  unfolding member
  read_working_set_size =
      read_word-word_bytes 8 (to_u64 e.working_set) _ (to_u64-word e.working_set)

  read_quota_paged_pool_usage : member 8 160 (header next e rest) ≡ ok (to_u64 e.pool_paged_bytes)
  unfolding member
  read_quota_paged_pool_usage =
      read_word-word_bytes 8 (to_u64 e.pool_paged_bytes) _ (to_u64-word e.pool_paged_bytes)

  read_quota_non_paged_pool_usage :
      member 8 176 (header next e rest) ≡ ok (to_u64 e.pool_non_paged_bytes)
  unfolding member
  read_quota_non_paged_pool_usage =
      read_word-word_bytes 8 (to_u64 e.pool_non_paged_bytes) _ (to_u64-word e.pool_non_paged_bytes)

  read_pagefile_usage : member 8 184 (header next e rest) ≡ ok (to_u64 e.page_file_bytes)
  unfolding member
  read_pagefile_usage =
      read_word-word_bytes 8 (to_u64 e.page_file_bytes) _ (to_u64-word e.page_file_bytes)

  read_peak_pagefile_usage : member 8 192 (header next e rest) ≡ ok (to_u64 e.page_file_bytes_peak)
  unfolding member
  read_peak_pagefile_usage =
      read_word-word_bytes 8 (to_u64 e.page_file_bytes_peak) _ (to_u64-word e.page_file_bytes_peak)

  read_private_page_count : member 8 200 (header next e rest) ≡ ok (to_u64 e.private_bytes)
  unfolding member
  read_private_page_count =
      read_word-word_bytes 8 (to_u64 e.private_bytes) _ (to_u64-word e.private_bytes)

  -- A header is read as the entry that it was written from, whatever the reserved words are.
  pub process_at-header : process_at (header next e rest) ≡ ok (seen next e)
  unfolding process_at
  process_at-header =
      rw
        (
          read_next_entry_offset, read_number_of_threads, read_image_name_length,
          read_image_name_buffer, read_base_priority, read_unique_process_id, read_handle_count,
          read_session_id, read_peak_virtual_size, read_virtual_size, read_peak_working_set_size,
          read_working_set_size, read_quota_paged_pool_usage, read_quota_non_paged_pool_usage,
          read_pagefile_usage, read_peak_pagefile_usage, read_private_page_count,
        )
        refl
