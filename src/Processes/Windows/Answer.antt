-- ===== src/Processes/Windows/Answer.antt =====
-- What _GetProcessInfos answers for a table of processes.
use mathlib.Core.Path.{subst}
use nuke.Base.{
  ℕ, zero, suc, ◌+◌, ◌^◌, ◌<◌, ◌≡◌, refl, sym, ap, ◌∙◌, List, [], ◌∷◌, ◌++◌, Option, none, some,
  false, ◌==◌, if◌then◌else◌, Bool-cases, inl, inr, length, length-append, append_assoc, arith,
}
use nuke.Base.Int.{ℤ, pos, ◌+ℤ◌, eqb_ℤ}
use nuke.Base.Word.{i32, of_u32}
use nuke.Base.Result.{ok}
use nuke.Processes.Windows.Walk.{ProcessInfo, assign, walk, process_infos_of}
use nuke.Processes.Windows.Table.{Entry, header, span, print_table}
use nuke.Processes.Windows.Collecting.{IsSorted, find_id, assign-IsSorted, find_id-assign}
use nuke.Processes.Windows.Walking.{info_of, length-header, header-append}
use nuke.Processes.Windows.Visiting.{AllEntries, visit-entry}

abbrev pub assign_all : List ProcessInfo → List Entry → List ProcessInfo
assign_all infos [] = infos
assign_all infos (e ∷ es) = assign_all (assign e.process_id (info_of e) infos) es

length-span :
    (front : List ℕ) (next : ℕ) (e : Entry)
    → length (front ++ header next e (e.threads ++ e.gap)) ≡ length front + span e
length-span front next e = omega (
  arith,
  length-append front (header next e (e.threads ++ e.gap)),
  length-header next e (e.threads ++ e.gap),
  length-append e.threads e.gap,
)

-- The part of the table behind one entry, with that entry in front of it.
regroup :
    (front : List ℕ) (next : ℕ) (e : Entry) (rest : List ℕ)
    → front ++ header next e (e.threads ++ (e.gap ++ rest))
      ≡ (front ++ header next e (e.threads ++ e.gap)) ++ rest
regroup front next e rest =
    ap (λ (t : List ℕ). front ++ header next e t) (sym (append_assoc e.threads e.gap rest))
    ∙ ap (λ (t : List ℕ). front ++ t) (header-append next e (e.threads ++ e.gap) rest)
    ∙ sym (append_assoc front (header next e (e.threads ++ e.gap)) rest)

step_offset : (a s : ℕ) → a + s < 2 ^ 31 → i32 (pos a +ℤ of_u32 s) ≡ pos (a + s)
unfolding ◌+ℤ◌
step_offset a s h = ground arith

span_positive : (e : Entry) → (span e == 0) ≡ false
span_positive e = ground arith

module _ (wide_text : (address count : ℕ) → List ℕ) where
  walk-table :
      (front : List ℕ) (e : Entry) (es : List Entry) (slack : List ℕ) (fuel : ℕ)
      (infos : List ProcessInfo)
      → AllEntries wide_text (e ∷ es)
      → length (front ++ print_table e es slack) < 2 ^ 31
      → length es < fuel
      → walk wide_text (front ++ print_table e es slack) fuel (pos (length front)) infos
        ≡ some (ok (assign_all infos (e ∷ es)))
  unfolding walk print_table
  walk-table front e es slack zero infos all small enough = absurd (omega arith)
  walk-table front e [] slack (suc fuel) infos ((valid, named), all) small enough =
      rw (visit-entry wide_text front 0 e slack infos valid named (omega arith) small) refl
  walk-table front e (e2 ∷ es) slack (suc fuel) infos ((valid, named), all) small enough =
      let rest = print_table e2 es slack in
      let front' = front ++ header (span e) e (e.threads ++ e.gap) in
      let long = length-span front (span e) e in
      let next_infos = assign e.process_id (info_of e) infos in
      let grouped = regroup front (span e) e rest in
      let inside : length front + span e < 2 ^ 31 =
        omega (arith, ap length grouped, length-append front' rest, long, small) in
      rw
        (
          visit-entry wide_text front (span e) e (e.gap ++ rest) infos valid named (omega arith)
              small,
          span_positive e,
          step_offset (length front) (span e) inside,
        )
        (ap (λ (t : List ℕ). walk wide_text t fuel (pos (length front + span e)) next_infos) grouped
          ∙ ap (λ (n : ℕ). walk wide_text (front' ++ rest) fuel (pos n) next_infos) (sym long)
          ∙ walk-table front' e2 es slack fuel next_infos all
              (subst (λ (t : List ℕ). length t < 2 ^ 31) grouped small) (omega arith))

  more_bytes :
      (e : Entry) (es : List Entry) (slack : List ℕ) → length es < length (print_table e es slack)
  unfolding print_table
  more_bytes e [] slack = omega arith
  more_bytes e (e2 ∷ es) slack = omega (
    arith,
    more_bytes e2 es slack,
    length-header (span e) e (e.threads ++ (e.gap ++ print_table e2 es slack)),
    length-append e.threads (e.gap ++ print_table e2 es slack),
    length-append e.gap (print_table e2 es slack),
  )

-- The last entry with an identifier.
abbrev later : ℤ → Entry → Option ProcessInfo → Option ProcessInfo
later id e (some info) = some info
later id e none = if eqb_ℤ id e.process_id then some (info_of e) else none

abbrev pub last_with : ℤ → List Entry → Option ProcessInfo
last_with id [] = none
last_with id (e ∷ es) = later id e (last_with id es)

assign_all-IsSorted :
    (infos : List ProcessInfo) (es : List Entry) → IsSorted infos → IsSorted (assign_all infos es)
assign_all-IsSorted infos [] sorted = sorted
assign_all-IsSorted infos (e ∷ es) sorted =
    assign_all-IsSorted (assign e.process_id (info_of e) infos) es
      (assign-IsSorted (info_of e) infos sorted)

abbrev or_else : Option ProcessInfo → Option ProcessInfo → Option ProcessInfo
or_else (some info) other = some info
or_else none other = other

or_else-later :
    (id : ℤ) (e : Entry) (found other : Option ProcessInfo)
    → or_else found (if eqb_ℤ id e.process_id then some (info_of e) else other)
      ≡ or_else (later id e found) other
or_else-later id e (some info) other = refl
or_else-later id e none other = elim (Bool-cases (eqb_ℤ id e.process_id)) [
  | inl same ↦ rw same refl
  | inr differs ↦ rw differs refl
]

find_id-assign_all :
    (id : ℤ) (infos : List ProcessInfo) (es : List Entry)
    → find_id id (assign_all infos es) ≡ or_else (last_with id es) (find_id id infos)
find_id-assign_all id infos [] = refl
find_id-assign_all id infos (e ∷ es) =
    find_id-assign_all id (assign e.process_id (info_of e) infos) es
    ∙ ap (or_else (last_with id es)) (find_id-assign id (info_of e) infos)
    ∙ or_else-later id e (last_with id es) (find_id id infos)

or_else-none : (found : Option ProcessInfo) → or_else found none ≡ found
or_else-none (some info) = refl
or_else-none none = refl

pub process_infos_of-print_table :
    (wide_text : (address count : ℕ) → List ℕ) (e : Entry) (es : List Entry) (slack : List ℕ)
    → AllEntries wide_text (e ∷ es)
    → length (print_table e es slack) < 2 ^ 31
    → process_infos_of wide_text (print_table e es slack) ≡ some (ok (assign_all [] (e ∷ es)))
unfolding process_infos_of
process_infos_of-print_table wide_text e es slack all small =
    walk-table wide_text [] e es slack (length (print_table e es slack)) [] all small
      (more_bytes wide_text e es slack)

pub assigned-IsSorted : (es : List Entry) → IsSorted (assign_all [] es)
assigned-IsSorted es = assign_all-IsSorted [] es tt

pub find_id-assigned : (id : ℤ) (es : List Entry) → find_id id (assign_all [] es) ≡ last_with id es
find_id-assigned id es = find_id-assign_all id [] es ∙ or_else-none (last_with id es)
