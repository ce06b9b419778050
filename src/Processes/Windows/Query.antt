-- ===== src/Processes/Windows/Query.antt =====
-- GetProcessInfos: the system's query for the table of processes, and the table's reading; and
-- GetTotalProcessorTime.
use nuke.Base.{
  ℕ, ◌+◌, ◌-◌, ◌*◌, List, ◌++◌, Option, none, some, leb, ◌==◌, if◌then◌else◌, length, take, drop,
  replicate,
}
use nuke.Base.Int.{ℤ, pos, ◌+ℤ◌, ltb_ℤ}
use nuke.Base.Word.{u32, to_u32, i64}
use nuke.Base.Result.{Result, ok, throws, runtime_error, undefined, ◌>>=◌}
use nuke.TimeSpan.{TimeSpan, from_ticks}
use nuke.Processes.Windows.Walk.{ProcessInfo, process_infos_of}

-- What NtQuerySystemInformation does with a buffer of some size: the bytes that it writes to the start,
-- the size that it stores, and its status.
pub record Reply : Type 0 where
  pub written : List ℕ
  pub return_length : ℕ
  pub status : ℤ

pub record Invoked : Type 0 where
  pub buffer : List ℕ
  pub actual_size : ℕ
  pub status : ℤ

abbrev pub status_info_length_mismatch : ℕ
status_info_length_mismatch = 0xC0000004

-- The first size of the buffer.
unfoldable pub initial_size : ℕ
initial_size = 1024 * 1024

unfoldable pub get_estimated_buffer_size : ℕ → ℕ
get_estimated_buffer_size actual_size = u32 (actual_size + 1024 * 10)

-- The buffer after a call; a call that writes past its end is undefined.
abbrev filled : (written buffer : List ℕ) → Result (List ℕ)
filled written buffer =
    if leb (length written) (length buffer)
    then ok (written ++ drop (length written) buffer)
    else throws undefined

-- DynamicInvokeNtQuerySystemInformation: `query` is nothing where the library or the function is not
-- found. The status of the call is dropped.
unfoldable pub dynamic_invoke :
    Option (ℕ → Reply) → (buffer : List ℕ) (actual_size : ℕ) → Result Invoked
dynamic_invoke none buffer actual_size =
    ok (record { buffer = buffer; actual_size = actual_size; status = pos 0 })
dynamic_invoke (some query) buffer actual_size = do
  let reply = query (u32 (length buffer))
  after ← filled reply.written buffer
  ok (record { buffer = after; actual_size = reply.return_length; status = pos 0 })

-- `resize`, which adds zeros.
abbrev pub resized : (size : ℕ) → List ℕ → List ℕ
resized size buffer = take size buffer ++ replicate (size - length buffer) 0

-- What is done with the outcome. The function ends without a return if the buffer was too small.
abbrev checked : Invoked → Result (List ℕ)
checked invoked =
    if to_u32 invoked.status == status_info_length_mismatch
    then throws undefined
    else if ltb_ℤ invoked.status (pos 0)
    then throws runtime_error
    else ok (resized invoked.actual_size invoked.buffer)

-- NtQuerySystemInformation_SystemProcessInformation
unfoldable pub system_process_information : Option (ℕ → Reply) → Result (List ℕ)
system_process_information query = do
  invoked ← dynamic_invoke query (replicate initial_size 0) 0
  checked invoked

abbrev answered :
    (wide_text : (address count : ℕ) → List ℕ)
    → Result (List ℕ)
    → Option (Result (List ProcessInfo))
answered wide_text (throws e) = some (throws e)
answered wide_text (ok bytes) = process_infos_of wide_text bytes

-- GetProcessInfos
unfoldable pub get_process_infos :
    (wide_text : (address count : ℕ) → List ℕ)
    → Option (ℕ → Reply)
    → Option (Result (List ProcessInfo))
get_process_infos wide_text query = answered wide_text (system_process_information query)

-- ProcessThreadTimes, as GetProcessTimes leaves it.
pub record ProcessThreadTimes : Type 0 where
  pub create : ℤ
  pub exit : ℤ
  pub kernel : ℤ
  pub user : ℤ

unfoldable pub privileged_processor_time : ProcessThreadTimes → TimeSpan
privileged_processor_time times = from_ticks times.kernel

unfoldable pub user_processor_time : ProcessThreadTimes → TimeSpan
user_processor_time times = from_ticks times.user

unfoldable pub total_processor_time : ProcessThreadTimes → TimeSpan
total_processor_time times = from_ticks (i64 (times.user +ℤ times.kernel))

-- GetTotalProcessorTime
unfoldable pub get_total_processor_time :
    (process_times : ℤ → ProcessThreadTimes) (pid : ℤ) → TimeSpan
get_total_processor_time process_times pid = total_processor_time (process_times pid)
