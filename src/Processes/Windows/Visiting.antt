-- ===== src/Processes/Windows/Visiting.antt =====
-- One round of _GetProcessInfos on an entry of a table.
use nuke.Base.{ℕ, ◌+◌, ◌^◌, ◌<◌, ◌≡◌, refl, List, [], ◌∷◌, ◌++◌, length, length-append, arith}
use nuke.Base.Int.{pos}
use nuke.Base.Result.{ok}
use nuke.Base.Text.{drop-length}
use nuke.Processes.Windows.Layout.{memory_at}
use nuke.Processes.Windows.Walk.{ProcessInfo, assign, process_name_of, process_info_of, visit}
use nuke.Processes.Windows.Table.{Entry, IsEntry, header}
use nuke.Processes.Windows.Reading.{seen, process_at-header}
use nuke.Processes.Windows.Walking.{
  info_of, signed32, signed64, cut_word, next_offset, thread_infos_from-IsOk, length-header,
}

module _ (wide_text : (address count : ℕ) → List ℕ) where
  -- The name that the code takes for an entry is that of the entry.
  abbrev pub IsNamed : Entry → Type 0
  IsNamed e = process_name_of wide_text e.process_id e.name_address e.name_length ≡ ok e.name

  abbrev pub AllEntries : List Entry → Type 0
  AllEntries [] = Unit
  AllEntries (e ∷ es) = (IsEntry e × IsNamed e) × AllEntries es

  process_info_of-seen :
      (next : ℕ) (e : Entry)
      → IsEntry e
      → IsNamed e
      → process_info_of wide_text (seen next e) ≡ ok (info_of e)
  unfolding process_info_of
  process_info_of-seen next e valid named =
      rw
        (
          cut_word e.process_id,
          signed32 e.process_id valid.process_id,
          named,
          signed32 e.base_priority valid.base_priority,
          signed32 e.session_id valid.session_id,
          signed32 e.handle_count valid.handle_count,
          signed64 e.virtual_bytes valid.virtual_bytes,
          signed64 e.virtual_bytes_peak valid.virtual_bytes_peak,
          signed64 e.working_set valid.working_set,
          signed64 e.working_set_peak valid.working_set_peak,
          signed64 e.pool_paged_bytes valid.pool_paged_bytes,
          signed64 e.pool_non_paged_bytes valid.pool_non_paged_bytes,
          signed64 e.page_file_bytes valid.page_file_bytes,
          signed64 e.page_file_bytes_peak valid.page_file_bytes_peak,
          signed64 e.private_bytes valid.private_bytes,
        )
        refl

  pub visit-entry :
      (front : List ℕ) (next : ℕ) (e : Entry) (more : List ℕ) (infos : List ProcessInfo)
      → IsEntry e
      → IsNamed e
      → next < 2 ^ 32
      → length (front ++ header next e (e.threads ++ more)) < 2 ^ 31
      → visit wide_text (front ++ header next e (e.threads ++ more)) (pos (length front)) infos
        ≡ ok (record { infos = assign e.process_id (info_of e) infos; next = next })
  unfolding visit memory_at
  visit-entry front next e more infos valid named next_word small =
      let bytes = front ++ header next e (e.threads ++ more) in
      let size : length bytes ≡ length front + (256 + (length e.threads + length more)) = omega (
        arith,
        length-append front (header next e (e.threads ++ more)),
        length-header next e (e.threads ++ more),
        length-append e.threads more,
      ) in
      let (threads, read) =
        thread_infos_from-IsOk bytes (length front + 256) e.number_of_threads
          (omega (arith, size, valid.threads)) small in
      rw
        (
          drop-length front (header next e (e.threads ++ more)),
          process_at-header next e (e.threads ++ more) valid next_word
              (omega (arith, size, small, valid.threads)),
          process_info_of-seen next e valid named,
          next_offset (length front) 256 (omega (arith, size, small)),
          read,
        )
        refl
