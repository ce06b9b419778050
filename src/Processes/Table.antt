-- ===== src/Processes/Table.antt =====
-- CrossPlatform/ProcessApi.Linux.cpp: the processes of the system.
use nuke.Base.{ℕ, ◌+◌, Bool, ◌||◌, List, [], ◌∷◌, Option, none, some, if◌then◌else◌}
use nuke.Base.Int.{ℤ, pos}
use nuke.Base.Word.{u64, of_u64, i32}
use nuke.Base.Floating.{Floating}
use nuke.Base.Result.{Result, ok, throws, ◌>>=◌}
use nuke.TimeSpan.{TimeSpan}
use nuke.TimeSpan.Floating.{from_seconds}
use nuke.Text.Numbers.{stoi}
use nuke.Processes.Status.{ParsedStatus, read_status_file, same_bytes}
use nuke.Processes.Stat.{ParsedStat, read_stat_file}

-- What `readdir` gives of an entry.
pub record DirectoryEntry : Type 0 where
  pub name : List ℕ
  pub is_directory : Bool

abbrev add_id : Result ℤ → List ℤ → List ℤ
add_id (throws e) ids = ids
add_id (ok id) ids = id ∷ ids

unfoldable pub ids_of : List DirectoryEntry → List ℤ
ids_of [] = []
ids_of (entry ∷ entries) =
    let rest = ids_of entries in
    if entry.is_directory
    then if same_bytes entry.name (b'.' ∷ []) || same_bytes entry.name (b'.' ∷ b'.' ∷ [])
      then rest
      else add_id (stoi entry.name) rest
    else rest

-- EnumerateProcessIds and GetProcessIds: nothing if /proc cannot be opened.
unfoldable pub enumerate_process_ids : Option (List DirectoryEntry) → List ℤ
enumerate_process_ids none = []
enumerate_process_ids (some entries) = ids_of entries

-- The members that CreateProcessInfo sets.
pub record ProcessInfo : Type 0 where
  pub process_id : ℤ
  pub base_priority : ℤ
  pub session_id : ℤ
  pub pool_paged_bytes : ℤ
  pub virtual_bytes : ℤ
  pub virtual_bytes_peak : ℤ
  pub working_set_peak : ℤ
  pub working_set : ℤ
  pub page_file_bytes : ℤ
  pub private_bytes : ℤ

-- CreateProcessInfo of the two parsed files. Both byte counts of the paging file are VmSwap.
unfoldable pub process_info_of : ParsedStat → ParsedStatus → ProcessInfo
process_info_of stat status = record {
  process_id = stat.pid;
  base_priority = i32 stat.nice;
  session_id = stat.session;
  pool_paged_bytes = of_u64 status.vm_swap;
  virtual_bytes = of_u64 status.vm_size;
  virtual_bytes_peak = of_u64 status.vm_peak;
  working_set_peak = of_u64 status.vm_hwm;
  working_set = of_u64 status.vm_rss;
  page_file_bytes = of_u64 status.vm_swap;
  private_bytes = of_u64 status.vm_data;
}

module _ (read_all_text : List ℕ → List ℕ) where
  unfoldable pub create_process_info : (pid : ℤ) → Result ProcessInfo
  create_process_info pid = read_stat_file read_all_text pid >>= (λ stat.
      read_status_file read_all_text pid >>= (λ status. ok (process_info_of stat status)))

  unfoldable pub infos_of : List ℤ → Result (List ProcessInfo)
  infos_of [] = ok []
  infos_of (pid ∷ pids) =
      create_process_info pid >>= (λ info. infos_of pids >>= (λ infos. ok (info ∷ infos)))

  unfoldable pub get_process_infos : Option (List DirectoryEntry) → Result (List ProcessInfo)
  get_process_infos proc = infos_of (enumerate_process_ids proc)

  -- GetTotalProcessorTime. The file's own _SC_CLK_TCK is 1.
  module _ (F : Floating) (sysconf : ℕ → ℤ) where
    unfoldable pub ticks_to_time_span : F.Double → Result TimeSpan
    ticks_to_time_span ticks = from_seconds F (F.div ticks (F.of_int (sysconf 1)))

    unfoldable pub get_total_processor_time : (pid : ℤ) → Result TimeSpan
    get_total_processor_time pid =
        read_stat_file read_all_text pid
        >>= (λ stat. ticks_to_time_span (F.of_int (pos (u64 (stat.utime + stat.stime)))))
