-- ===== src/Processes/Process.antt =====
-- System/Diagnostics/Process.cpp.
use nuke.Base.{ℕ, Bool, true, List, [], ◌∷◌, Option}
use nuke.Base.Int.{ℤ}
use nuke.Base.Floating.{Floating}
use nuke.Base.Result.{Result, ok, ◌>>=◌}
use nuke.TimeSpan.{TimeSpan}
use nuke.Processes.Table.{DirectoryEntry, ProcessInfo, get_process_infos, get_total_processor_time}

-- ProcessImpl
pub record Process : Type 0 where
  pub have_process_id : Bool
  pub process_id : ℤ

unfoldable pub get_process_by_id : ℤ → Process
get_process_by_id process_id = record { have_process_id = true; process_id = process_id }

abbrev processes_of : List ProcessInfo → List Process
processes_of [] = []
processes_of (info ∷ infos) = get_process_by_id info.process_id ∷ processes_of infos

-- Id
unfoldable pub id_of : Process → ℤ
id_of process = process.process_id

-- GetCurrentProcess, from the identifier that the environment gives.
unfoldable pub get_current_process : (environment_process_id : ℤ) → Process
get_current_process environment_process_id = get_process_by_id environment_process_id

module _ (read_all_text : List ℕ → List ℕ) where
  unfoldable pub get_processes : Option (List DirectoryEntry) → Result (List Process)
  get_processes proc = get_process_infos read_all_text proc >>= (λ infos. ok (processes_of infos))

  unfoldable pub total_processor_time : (F : Floating) (sysconf : ℕ → ℤ) → Process → Result TimeSpan
  total_processor_time F sysconf process =
      get_total_processor_time read_all_text F sysconf process.process_id
