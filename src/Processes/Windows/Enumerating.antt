-- ===== src/Processes/Windows/Enumerating.antt =====
-- GetProcessIds ends, and what it returns.
use nuke.Base.{
  ℕ, zero, suc, ◌+◌, ◌-◌, ◌*◌, ◌/◌, ◌%◌, ◌^◌, ◌≤◌, ◌<◌, ◌≡◌, refl, ap, ◌∙◌, min, List, [], ◌++◌,
  Option, some, ◌==◌, le→leb, true, false, if◌then◌else◌, length, take, replicate, length-append,
  append_assoc, length-replicate, length-take, take_all, replicate-add, replicate_eq, drop-padded,
  arith,
}
use nuke.Base.Int.{ℤ, pos}
use nuke.Base.Word.{u32}
use nuke.Base.Result.{ok}
use mathlib.Core.Path.{subst}
use native.Mathlib.Decide.{dec_lt}
use native.Mathlib.Nat.{pow-suc, one-le-pow, mul-le-mul_left}
use nuke.Processes.Windows.Ids.{Enumeration, overwrite, doubled, enumerate_from, get_process_ids}

-- The documented behaviour of EnumProcesses, of a system with these processes: as many identifiers as
-- the bytes have room for are written, and the number of their bytes is stored.
abbrev pub Enumerates : (ℕ → Option Enumeration) → List ℤ → Type 0
Enumerates enum_processes ids =
    (size : ℕ)
    → enum_processes size
      ≡ some (record { written = take (size / 4) ids; needed = 4 * min (size / 4) (length ids) })

overwrite-padded :
    (ids xs : List ℤ) (r : ℕ)
    → length xs ≤ length ids
    → length ids ≤ length xs + r
    → overwrite ids (xs ++ replicate r (pos 0))
      ≡ ok (ids ++ replicate (length xs + r - length ids) (pos 0))
unfolding overwrite
overwrite-padded ids xs r short fits =
    let room : length ids ≤ length (xs ++ replicate r (pos 0)) =
      omega (arith, length-append xs (replicate r (pos 0)), length-replicate r (pos 0)) in
    rw (le→leb (length ids) (length (xs ++ replicate r (pos 0))) room)
      (ap (λ (t : List ℤ). ok (ids ++ t)) (drop-padded (length ids) xs r (pos 0) short))

-- An array of `size` entries: as many identifiers as one call has written, and zeros.
abbrev padded : List ℤ → (size : ℕ) → List ℤ
padded ids size = ids ++ replicate (size - length ids) (pos 0)

length-padded : (ids : List ℤ) (size : ℕ) → length ids ≤ size → length (padded ids size) ≡ size
length-padded ids size h = omega (
  arith,
  length-append ids (replicate (size - length ids) (pos 0)),
  length-replicate (size - length ids) (pos 0),
)

doubled-padded :
    (ids : List ℤ) (size : ℕ)
    → length ids ≤ size
    → doubled (padded ids size) ≡ padded ids (size * 2)
doubled-padded ids size h =
    let more = length (padded ids size) in
    append_assoc ids (replicate (size - length ids) (pos 0)) (replicate more (pos 0))
    ∙ ap (λ (t : List ℤ). ids ++ t)
        (replicate-add (size - length ids) more (pos 0)
          ∙ replicate_eq (size - length ids + more) (size * 2 - length ids) (pos 0)
              (omega (arith, length-padded ids size h)))

twice : (size rounds : ℕ) → size * 2 ^ suc rounds ≡ size * 2 * 2 ^ rounds
twice size rounds = omega (arith, ap (λ (t : ℕ). size * t) (pow-suc 2 rounds))

size_below : (size rounds : ℕ) → size * 2 ^ rounds < 2 ^ 32 → size < 2 ^ 32
size_below size rounds h = omega (arith, mul-le-mul_left size (one-le-pow rounds 2 (omega arith)))

module _ (enum_processes : ℕ → Option Enumeration) (ids : List ℤ)
    (documented : Enumerates enum_processes ids) where
  overwrite-take :
      (xs : List ℤ) (size : ℕ)
      → length xs ≤ size / 4
      → length xs ≤ length ids
      → overwrite (take (size / 4) ids) (padded xs size) ≡ ok (padded (take (size / 4) ids) size)
  overwrite-take xs size short known =
      let written = take (size / 4) ids in
      let count = length-take (size / 4) ids in
      overwrite-padded written xs (size - length xs) (omega (arith, count)) (omega (arith, count))
      ∙ ap (λ (t : List ℤ). ok (written ++ t))
          (replicate_eq (length xs + (size - length xs) - length written) (size - length written)
            (pos 0) (omega (arith, count)))

  -- One call on an array of `size` entries.
  call :
      (xs : List ℤ) (size fuel : ℕ)
      → length xs ≤ size / 4
      → length xs ≤ length ids
      → size < 2 ^ 32
      → enumerate_from enum_processes (suc fuel) (padded xs size) ≡ (
          if 4 * min (size / 4) (length ids) == size
          then enumerate_from enum_processes fuel (padded (take (size / 4) ids) (size * 2))
          else some (ok (padded (take (size / 4) ids) size)))
  unfolding enumerate_from
  call xs size fuel short known small =
      let written = take (size / 4) ids in
      let bytes : u32 (length (padded xs size)) ≡ size =
        omega (arith, length-padded xs size (omega arith)) in
      rw (bytes, documented size, overwrite-take xs size short known)
        (subst
          (λ (again : List ℤ).
            (if 4 * min (size / 4) (length ids) == length (padded written size)
              then enumerate_from enum_processes fuel (doubled (padded written size))
              else some (ok (padded written size)))
            ≡ (if 4 * min (size / 4) (length ids) == size
                then enumerate_from enum_processes fuel again
                else some (ok (padded written size))))
          (doubled-padded written size (omega (arith, length-take (size / 4) ids)))
          (rw (length-padded written size (omega (arith, length-take (size / 4) ids))) refl))

  last_call :
      (xs : List ℤ) (size fuel : ℕ)
      → length xs ≤ size / 4
      → length xs ≤ length ids
      → size < 2 ^ 32
      → 4 * length ids < size
      → enumerate_from enum_processes (suc fuel) (padded xs size) ≡ some (ok (padded ids size))
  last_call xs size fuel short known small all =
      let partial : (4 * min (size / 4) (length ids) == size) ≡ false = ground arith in
      call xs size fuel short known small ∙ rw (partial, take_all (size / 4) ids (omega arith)) refl

  full_call :
      (xs : List ℤ) (size fuel : ℕ)
      → length xs ≤ size / 4
      → length xs ≤ length ids
      → size < 2 ^ 32
      → size % 4 ≡ 0
      → size ≤ 4 * length ids
      → enumerate_from enum_processes (suc fuel) (padded xs size)
        ≡ enumerate_from enum_processes fuel (padded (take (size / 4) ids) (size * 2))
  full_call xs size fuel short known small aligned more =
      let full : (4 * min (size / 4) (length ids) == size) ≡ true = ground arith in
      call xs size fuel short known small ∙ rw full refl

  enough :
      (rounds fuel size : ℕ) (xs : List ℤ)
      → rounds < fuel
      → length xs ≤ size / 4
      → length xs ≤ length ids
      → size % 4 ≡ 0
      → 4 * length ids < size * 2 ^ rounds
      → size * 2 ^ rounds < 2 ^ 32
      → (final : ℕ) × (4 * length ids < final)
        × (enumerate_from enum_processes fuel (padded xs size) ≡ some (ok (padded ids final)))
  enough rounds zero size xs le short known aligned goal small = absurd (omega arith)
  enough zero (suc fuel) size xs le short known aligned goal small =
      (size, omega arith, last_call xs size fuel short known (omega arith) (omega arith))
  enough (suc rounds) (suc fuel) size xs le short known aligned goal small =
      let within = size_below size (suc rounds) small in
      elim (dec_lt (4 * length ids) size) [
        | yes all ↦ (size, all, last_call xs size fuel short known within all)
        | no more ↦
            let (final, large, found) =
              enough rounds fuel (size * 2) (take (size / 4) ids) (omega arith)
                (omega (arith, length-take (size / 4) ids))
                (omega (arith, length-take (size / 4) ids)) (omega arith)
                (omega (arith, goal, twice size rounds))
                (omega (arith, small, twice size rounds)) in
            (final, large, full_call xs size fuel short known within aligned (omega arith) ∙ found)
      ]

-- Let EnumProcesses do what is documented, on a system with some processes, and let `rounds` be any
-- number of doublings that make 1024 more than four times their number, and the array's size a
-- uint32_t. Then `GetProcessIds` returns within `rounds + 1` rounds; it returns all identifiers in
-- order, followed by zeros, and the array has more than four times as many entries as there are
-- processes.
pub get_process_ids_ends :
    (enum_processes : ℕ → Option Enumeration) (ids : List ℤ) (rounds : ℕ)
    → Enumerates enum_processes ids
    → 4 * length ids < 1024 * 2 ^ rounds
    → 1024 * 2 ^ rounds < 2 ^ 32
    → (size : ℕ) × (4 * length ids < size)
      × (get_process_ids enum_processes (suc rounds)
          ≡ some (ok (ids ++ replicate (size - length ids) (pos 0))))
unfolding get_process_ids
get_process_ids_ends enum_processes ids rounds documented large small =
    enough enum_processes ids documented rounds (suc rounds) 1024 [] (omega arith) (omega arith)
      (omega arith) (omega arith) large small
