-- ===== src/Processes/Windows/Ids.antt =====
-- GetProcessIds. The system's `EnumProcesses` is a parameter: what it writes for a number of bytes, with
-- the number that it stores in `needed`, or nothing where it returns false.
use nuke.Base.{
  ℕ, zero, suc, List, ◌++◌, Option, none, some, leb, ◌==◌, if◌then◌else◌, length, drop, replicate,
}
use nuke.Base.Int.{ℤ, pos}
use nuke.Base.Word.{u32}
use nuke.Base.Result.{Result, ok, throws, runtime_error, undefined}

pub record Enumeration : Type 0 where
  pub written : List ℤ
  pub needed : ℕ

-- The array after the call has written to its start.
unfoldable pub overwrite : List ℤ → (array : List ℤ) → Result (List ℤ)
overwrite written array =
    if leb (length written) (length array)
    then ok (written ++ drop (length written) array)
    else throws undefined

-- `resize` to twice the size.
abbrev pub doubled : List ℤ → List ℤ
doubled array = array ++ replicate (length array) (pos 0)

module _ (enum_processes : (size : ℕ) → Option Enumeration) where
  abbrev after_call :
      Result (List ℤ)
      → (needed : ℕ) → (List ℤ → Option (Result (List ℤ)))
      → Option (Result (List ℤ))
  after_call (throws e) needed again = some (throws e)
  after_call (ok array) needed again =
      if needed == length array then again (doubled array) else some (ok array)

  abbrev after_enumeration :
      Option Enumeration
      → (array : List ℤ) → (List ℤ → Option (Result (List ℤ)))
      → Option (Result (List ℤ))
  after_enumeration none array again = some (throws runtime_error)
  after_enumeration (some e) array again = after_call (overwrite e.written array) e.needed again

  -- The loop; `none` is a loop that goes on after `fuel` rounds.
  unfoldable pub enumerate_from : (fuel : ℕ) (array : List ℤ) → Option (Result (List ℤ))
  enumerate_from zero array = none
  enumerate_from (suc fuel) array =
      after_enumeration (enum_processes (u32 (length array))) array (enumerate_from fuel)

  unfoldable pub get_process_ids : (fuel : ℕ) → Option (Result (List ℤ))
  get_process_ids fuel = enumerate_from fuel (replicate 1024 (pos 0))
