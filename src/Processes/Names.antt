-- ===== src/Processes/Names.antt =====
-- The paths below /proc that CrossPlatform/ProcessApi.Linux.cpp builds with sprintf, and its keys.
use nuke.Base.{ℕ, List, [], ◌∷◌, ◌++◌}
use nuke.Base.Int.{ℤ}
use nuke.Base.Text.{decimal}

-- "/proc/", "/status", "/exe", "/cmdline", "/stat", "/fd/" and "/task/"
abbrev pub root_path : List ℕ
root_path = b'/' ∷ b'p' ∷ b'r' ∷ b'o' ∷ b'c' ∷ b'/' ∷ []

abbrev pub status_file_name : List ℕ
status_file_name = b'/' ∷ b's' ∷ b't' ∷ b'a' ∷ b't' ∷ b'u' ∷ b's' ∷ []

abbrev pub exe_file_name : List ℕ
exe_file_name = b'/' ∷ b'e' ∷ b'x' ∷ b'e' ∷ []

abbrev pub cmd_line_file_name : List ℕ
cmd_line_file_name = b'/' ∷ b'c' ∷ b'm' ∷ b'd' ∷ b'l' ∷ b'i' ∷ b'n' ∷ b'e' ∷ []

abbrev pub stat_file_name : List ℕ
stat_file_name = b'/' ∷ b's' ∷ b't' ∷ b'a' ∷ b't' ∷ []

abbrev pub file_descriptor_directory_name : List ℕ
file_descriptor_directory_name = b'/' ∷ b'f' ∷ b'd' ∷ b'/' ∷ []

abbrev pub task_directory_name : List ℕ
task_directory_name = b'/' ∷ b't' ∷ b'a' ∷ b's' ∷ b'k' ∷ b'/' ∷ []

unfoldable pub get_process_sub_file : (pid : ℤ) (sub_file_name : List ℕ) → List ℕ
get_process_sub_file pid sub_file_name = root_path ++ decimal pid ++ sub_file_name

unfoldable pub get_thread_sub_file : (pid tid : ℤ) (sub_file_name : List ℕ) → List ℕ
get_thread_sub_file pid tid sub_file_name =
    root_path ++ decimal pid ++ task_directory_name ++ decimal tid ++ sub_file_name

unfoldable pub get_status_file_path_for_process : ℤ → List ℕ
get_status_file_path_for_process pid = get_process_sub_file pid status_file_name

unfoldable pub get_exe_file_path_for_process : ℤ → List ℕ
get_exe_file_path_for_process pid = get_process_sub_file pid exe_file_name

unfoldable pub get_cmd_line_path_for_process : ℤ → List ℕ
get_cmd_line_path_for_process pid = get_process_sub_file pid cmd_line_file_name

unfoldable pub get_stat_file_path_for_process : ℤ → List ℕ
get_stat_file_path_for_process pid = get_process_sub_file pid stat_file_name

unfoldable pub get_task_directory_path_for_process : ℤ → List ℕ
get_task_directory_path_for_process pid = get_process_sub_file pid task_directory_name

unfoldable pub get_file_descriptor_directory_path_for_process : ℤ → List ℕ
get_file_descriptor_directory_path_for_process pid =
    get_process_sub_file pid file_descriptor_directory_name

unfoldable pub get_stat_file_path_for_thread : (pid tid : ℤ) → List ℕ
get_stat_file_path_for_thread pid tid = get_thread_sub_file pid tid stat_file_name

-- The keys of a status file.
abbrev pub vm_hwm : List ℕ
vm_hwm = b'V' ∷ b'm' ∷ b'H' ∷ b'W' ∷ b'M' ∷ []

abbrev pub vm_rss : List ℕ
vm_rss = b'V' ∷ b'm' ∷ b'R' ∷ b'S' ∷ b'S' ∷ []

abbrev pub vm_data : List ℕ
vm_data = b'V' ∷ b'm' ∷ b'D' ∷ b'a' ∷ b't' ∷ b'a' ∷ []

abbrev pub vm_swap : List ℕ
vm_swap = b'V' ∷ b'm' ∷ b'S' ∷ b'w' ∷ b'a' ∷ b'p' ∷ []

abbrev pub vm_size : List ℕ
vm_size = b'V' ∷ b'm' ∷ b'S' ∷ b'i' ∷ b'z' ∷ b'e' ∷ []

abbrev pub vm_peak : List ℕ
vm_peak = b'V' ∷ b'm' ∷ b'P' ∷ b'e' ∷ b'a' ∷ b'k' ∷ []

abbrev pub vm_stk : List ℕ
vm_stk = b'V' ∷ b'm' ∷ b'S' ∷ b't' ∷ b'k' ∷ []
