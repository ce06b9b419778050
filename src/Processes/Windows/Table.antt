-- ===== src/Processes/Windows/Table.antt =====
-- A table of processes in memory, as the system writes one: what _GetProcessInfos is proved about.
use nuke.Base.{ℕ, ◌+◌, ◌*◌, ◌^◌, ◌<◌, ◌≡◌, List, [], ◌∷◌, ◌++◌, length}
use nuke.Base.Int.{ℤ}
use nuke.Base.Word.{to_u32, to_u64, IsInt32, IsInt64}
use nuke.Base.Memory.{word_bytes}

-- One process: its numbers, its short name and where its long name is, its threads as they stand in memory, and what stands
-- between it and the next one. `reserved` has the words that the code does not read.
pub record Entry : Type 0 where
  pub process_id : ℤ
  pub base_priority : ℤ
  pub handle_count : ℤ
  pub session_id : ℤ
  pub virtual_bytes_peak : ℤ
  pub virtual_bytes : ℤ
  pub working_set_peak : ℤ
  pub working_set : ℤ
  pub pool_paged_bytes : ℤ
  pub pool_non_paged_bytes : ℤ
  pub page_file_bytes : ℤ
  pub page_file_bytes_peak : ℤ
  pub private_bytes : ℤ
  pub name : List ℕ
  pub name_length : ℕ
  pub name_address : ℕ
  pub number_of_threads : ℕ
  pub threads : List ℕ
  pub gap : List ℕ
  pub reserved : ℕ → ℕ

pub record IsEntry (e : Entry) : Type 0 where
  pub process_id : IsInt32 e.process_id
  pub base_priority : IsInt32 e.base_priority
  pub handle_count : IsInt32 e.handle_count
  pub session_id : IsInt32 e.session_id
  pub virtual_bytes_peak : IsInt64 e.virtual_bytes_peak
  pub virtual_bytes : IsInt64 e.virtual_bytes
  pub working_set_peak : IsInt64 e.working_set_peak
  pub working_set : IsInt64 e.working_set
  pub pool_paged_bytes : IsInt64 e.pool_paged_bytes
  pub pool_non_paged_bytes : IsInt64 e.pool_non_paged_bytes
  pub page_file_bytes : IsInt64 e.page_file_bytes
  pub page_file_bytes_peak : IsInt64 e.page_file_bytes_peak
  pub private_bytes : IsInt64 e.private_bytes
  pub name_length : e.name_length < 2 ^ 16
  pub name_address : e.name_address < 2 ^ 64
  pub threads : length e.threads ≡ 80 * e.number_of_threads

-- The 128 bytes behind the first half of a SYSTEM_PROCESS_INFORMATION, in front of `rest`.
abbrev sizes : Entry → (rest : List ℕ) → List ℕ
sizes e rest =
    word_bytes 8 (e.reserved 5)
    ++ (word_bytes 8 (to_u64 e.working_set_peak)
        ++ (word_bytes 8 (to_u64 e.working_set)
            ++ (word_bytes 8 (e.reserved 6)
                ++ (word_bytes 8 (to_u64 e.pool_paged_bytes)
                    ++ (word_bytes 8 (e.reserved 7)
                        ++ (word_bytes 8 (to_u64 e.pool_non_paged_bytes)
                            ++ (word_bytes 8 (to_u64 e.page_file_bytes)
                                ++ (word_bytes 8 (to_u64 e.page_file_bytes_peak)
                                    ++ (word_bytes 8 (to_u64 e.private_bytes)
                                        ++ (word_bytes 48 (e.reserved 8) ++ rest))))))))))

-- The 256 bytes of a SYSTEM_PROCESS_INFORMATION, in front of `rest`.
abbrev pub header : (next : ℕ) → Entry → (rest : List ℕ) → List ℕ
header next e rest =
    word_bytes 4 next
    ++ (word_bytes 4 e.number_of_threads
        ++ (word_bytes 48 (e.reserved 0)
            ++ (word_bytes 2 e.name_length
                ++ (word_bytes 6 (e.reserved 1)
                    ++ (word_bytes 8 e.name_address
                        ++ (word_bytes 4 (to_u32 e.base_priority)
                            ++ (word_bytes 4 (e.reserved 2)
                                ++ (word_bytes 8 (to_u32 e.process_id)
                                    ++ (word_bytes 8 (e.reserved 3)
                                        ++ (word_bytes 4 (to_u32 e.handle_count)
                                            ++ (word_bytes 4 (to_u32 e.session_id)
                                                ++ (word_bytes 8 (e.reserved 4)
                                                    ++ (word_bytes 8 (to_u64 e.virtual_bytes_peak)
                                                        ++ (word_bytes 8 (to_u64 e.virtual_bytes)
                                                            ++ sizes e rest))))))))))))))

-- The bytes from one entry to the next.
abbrev pub span : Entry → ℕ
span e = 256 + (length e.threads + length e.gap)

-- The entries one behind the other, each with the way to the next one, and 0 in the last.
unfoldable pub print_table : Entry → List Entry → (slack : List ℕ) → List ℕ
print_table e [] slack = header 0 e (e.threads ++ slack)
print_table e (e2 ∷ es) slack = header (span e) e (e.threads ++ (e.gap ++ print_table e2 es slack))
