-- ===== src/Processes/Windows/Walking.antt =====
-- _GetProcessInfos walks through a whole table.
use nuke.Base.{
  ℕ, zero, suc, ◌+◌, ◌-◌, ◌*◌, ◌^◌, ◌≤◌, ◌<◌, ◌≡◌, refl, List, [], ◌∷◌, ◌++◌, length, drop, arith,
}
use nuke.Base.Int.{ℤ, pos, ◌+ℤ◌}
use nuke.Base.Word.{i32, u32, to_u32, to_u64, of_u32, of_u64, IsInt32, IsInt64}
use nuke.Base.Result.{ok}
use nuke.Base.Memory.{read_word-IsOk}
use nuke.Processes.Windows.Layout.{member, memory_at, SystemThreadInformation, thread_at}
use nuke.Processes.Windows.Walk.{ProcessInfo, ThreadInfo, thread_info_of, thread_infos_from}
use nuke.Processes.Windows.Table.{Entry, header}

length-drop {ℓ} : {A : Type ℓ} (n : ℕ) (xs : List A) → length (drop n xs) ≡ length xs - n
length-drop zero xs = omega arith
length-drop (suc n) [] = omega arith
length-drop (suc n) (x ∷ xs) = omega (arith, length-drop n xs)

member-IsOk :
    (width offset : ℕ) (bytes : List ℕ)
    → offset + width ≤ length bytes
    → (v : ℕ) × (member width offset bytes ≡ ok v)
unfolding member
member-IsOk width offset bytes h =
    read_word-IsOk width (drop offset bytes) (omega (arith, length-drop offset bytes))

thread_at-IsOk :
    (bytes : List ℕ)
    → 80 ≤ length bytes
    → (ti : SystemThreadInformation) × (thread_at bytes ≡ ok ti)
unfolding thread_at
thread_at-IsOk bytes h =
    let (a, read_a) = member-IsOk 8 32 bytes (omega arith) in
    let (b, read_b) = member-IsOk 8 40 bytes (omega arith) in
    let (c, read_c) = member-IsOk 8 48 bytes (omega arith) in
    let (d, read_d) = member-IsOk 4 56 bytes (omega arith) in
    let (e, read_e) = member-IsOk 4 60 bytes (omega arith) in
    let (f, read_f) = member-IsOk 4 68 bytes (omega arith) in
    let (g, read_g) = member-IsOk 4 72 bytes (omega arith) in
    (
      record {
        start_address = a;
        unique_process = b;
        unique_thread = c;
        priority = d;
        base_priority = e;
        thread_state = f;
        wait_reason = g;
      },
      rw (read_a, read_b, read_c, read_d, read_e, read_f, read_g) refl,
    )

pub next_offset : (a b : ℕ) → a + b < 2 ^ 31 → i32 (pos a +ℤ pos b) ≡ pos (a + b)
unfolding ◌+ℤ◌
next_offset a b h = ground arith

pub thread_infos_from-IsOk :
    (bytes : List ℕ) (offset count : ℕ)
    → offset + 80 * count ≤ length bytes
    → length bytes < 2 ^ 31
    → (threads : List ThreadInfo) × (thread_infos_from bytes (pos offset) count ≡ ok threads)
unfolding thread_infos_from memory_at
thread_infos_from-IsOk bytes offset zero inside small = ([], refl)
thread_infos_from-IsOk bytes offset (suc count) inside small =
    let (ti, read) = thread_at-IsOk (drop offset bytes) (omega (arith, length-drop offset bytes)) in
    let (rest, read_rest) = thread_infos_from-IsOk bytes (offset + 80) count (omega arith) small in
    (thread_info_of ti ∷ rest, rw (read, next_offset offset 80 (omega arith), read_rest) refl)

pub length-header :
    (next : ℕ) (e : Entry) (rest : List ℕ) → length (header next e rest) ≡ 256 + length rest
length-header next e rest = omega arith

pub header-append :
    (next : ℕ) (e : Entry) (xs ys : List ℕ) → header next e (xs ++ ys) ≡ header next e xs ++ ys
header-append next e xs ys = refl

-- What the code makes of an entry: its numbers, its name, and no threads.
abbrev pub info_of : Entry → ProcessInfo
info_of e = record {
  base_priority = e.base_priority;
  process_name = e.name;
  process_id = e.process_id;
  pool_paged_bytes = e.pool_paged_bytes;
  pool_non_paged_bytes = e.pool_non_paged_bytes;
  virtual_bytes = e.virtual_bytes;
  virtual_bytes_peak = e.virtual_bytes_peak;
  working_set_peak = e.working_set_peak;
  working_set = e.working_set;
  page_file_bytes_peak = e.page_file_bytes_peak;
  page_file_bytes = e.page_file_bytes;
  private_bytes = e.private_bytes;
  session_id = e.session_id;
  handle_count = e.handle_count;
  thread_info_list = [];
}

pub signed32 : (z : ℤ) → IsInt32 z → of_u32 (to_u32 z) ≡ z
signed32 z h = ground arith

pub signed64 : (z : ℤ) → IsInt64 z → of_u64 (to_u64 z) ≡ z
signed64 z h = ground arith

pub cut_word : (z : ℤ) → u32 (to_u32 z) ≡ to_u32 z
cut_word z = ground arith
