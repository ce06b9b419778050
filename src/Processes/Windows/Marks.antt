-- ===== src/Processes/Windows/Marks.antt =====
-- Where GetProcessShortName finds the last backslash and the extension.
use nuke.Base.{
  ℕ, zero, suc, ◌+◌, ◌%◌, ◌^◌, ◌≤◌, ◌<◌, ◌≡◌, refl, ap, ◌∙◌, List, [], ◌∷◌, ◌++◌, inl, inr, le→leb,
  if◌then◌else◌, length, take, drop, length-append, append_assoc, drop-add, arith,
}
use nuke.Base.Int.{ℤ, pos, negsuc, ◌+ℤ◌, ◌-ℤ◌, eqb_ℤ}
use nuke.Base.Result.{ok}
use nuke.Base.Text.{IsFreeOf, drop-length}
use mathlib.Core.Path.{subst}
use native.Mathlib.Decide.{dec_lt}
use nuke.Processes.Windows.ShortName.{last_marks, cut_out, before_extension, get_process_short_name}
use nuke.Processes.Windows.Naming.{
  IsExe, IsDirectory, last_marks-append, slash-IsFreeOf, period-IsFreeOf, exe_facts,
}

-- The marks of a whole name.
abbrev pub slash_of : List ℕ → ℤ
slash_of name = (last_marks 0 name (negsuc 0) (negsuc 0)).slash

abbrev pub period_of : List ℕ → ℤ
period_of name = (last_marks 0 name (negsuc 0) (negsuc 0)).period

abbrev pub start_of : List ℕ → ℤ
start_of name = if eqb_ℤ (slash_of name) (negsuc 0) then pos 0 else slash_of name +ℤ pos 1

pub slash-front :
    (front : List ℕ) (s p : ℤ) → (last_marks 0 (front ++ b'\\' ∷ []) s p).slash ≡ pos (length front)
unfolding last_marks
slash-front front s p = rw (last_marks-append 0 front (b'\\' ∷ []) s p) (ap pos (omega arith))

pub start-directory :
    (dir base : List ℕ)
    → IsDirectory dir
    → IsFreeOf b'\\' base
    → start_of (dir ++ base) ≡ pos (length dir)
unfolding ◌+ℤ◌
start-directory dir base (inl empty) free =
    rw empty (rw (slash-IsFreeOf 0 base (negsuc 0) (negsuc 0) free) refl)
start-directory dir base (inr (front, ends)) free =
    let at_end : slash_of (dir ++ base) ≡ pos (length front) =
      ap (λ (m : record { slash : ℤ; period : ℤ }). m.slash)
        (last_marks-append 0 dir base (negsuc 0) (negsuc 0))
      ∙ slash-IsFreeOf (0 + length dir) base (slash_of dir) (period_of dir) free
      ∙ ap slash_of ends
      ∙ slash-front front (negsuc 0) (negsuc 0) in
    let long : length dir ≡ suc (length front) =
      ap length ends ∙ omega (arith, length-append front (b'\\' ∷ [])) in
    rw (at_end, long) (ground arith)

pub period_of-exe : (front ext : List ℕ) → IsExe ext → period_of (front ++ ext) ≡ pos (length front)
unfolding last_marks
period_of-exe front ext exe =
    let facts = exe_facts ext exe in
    ap (λ (m : record { slash : ℤ; period : ℤ }). m.period)
      (last_marks-append 0 front ext (negsuc 0) (negsuc 0))
    ∙ ap
        (λ (t : List ℕ).
          (last_marks (0 + length front) t (slash_of front) (period_of front)).period)
        facts.starts
    ∙ period-IsFreeOf (suc (0 + length front)) facts.tail (slash_of front) (pos (0 + length front))
        facts.no_period
    ∙ ap pos (omega arith)

-- `substr` with arguments in range.
pub cut_out-append :
    (dir base : List ℕ) (k : ℕ)
    → length dir + length base < 2 ^ 31
    → k ≤ length base
    → cut_out (dir ++ base) (pos (length dir)) (pos k) ≡ ok (take k base)
unfolding cut_out
cut_out-append dir base k small fits =
    let start : length dir % 2 ^ 64 ≡ length dir = omega arith in
    let count : k % 2 ^ 64 ≡ k = omega arith in
    let inside =
      le→leb (length dir) (length (dir ++ base)) (omega (arith, length-append dir base)) in
    rw (start, count, inside, drop-length dir base) refl

pub count_lem : (d k : ℕ) → pos (d + k) -ℤ pos 1 -ℤ pos d +ℤ pos 1 ≡ pos k
unfolding ◌+ℤ◌ ◌-ℤ◌
count_lem d k = ground arith

pub get_lem :
    (name : List ℕ)
    → get_process_short_name name
      ≡ cut_out name
          (start_of name)
          (before_extension name (period_of name) -ℤ start_of name +ℤ pos 1)
unfolding get_process_short_name cut_out last_marks ◌+ℤ◌ ◌-ℤ◌
get_lem [] = refl
get_lem (c ∷ cs) = refl

-- The result, from what stands before the extension.
pub shortened :
    (dir base : List ℕ) (k : ℕ)
    → IsDirectory dir
    → IsFreeOf b'\\' base
    → length dir + length base < 2 ^ 31
    → k ≤ length base
    → before_extension (dir ++ base) (period_of (dir ++ base)) ≡ pos (length dir + k) -ℤ pos 1
    → get_process_short_name (dir ++ base) ≡ ok (take k base)
shortened dir base k is_directory free small fits before =
    get_lem (dir ++ base)
    ∙ rw (start-directory dir base is_directory free, before, count_lem (length dir) k)
        (cut_out-append dir base k small fits)

pub drop-start : (xs ys : List ℕ) (k : ℕ) → drop (length xs + k) (xs ++ ys) ≡ drop k ys
drop-start xs ys k = drop-add (length xs) k (xs ++ ys) ∙ ap (drop k) (drop-length xs ys)

pub take-drop : (k : ℕ) (xs : List ℕ) → take k xs ++ drop k xs ≡ xs
take-drop zero xs = refl
take-drop (suc k) [] = refl
take-drop (suc k) (x ∷ xs) = ap (λ (t : List ℕ). x ∷ t) (take-drop k xs)

pub no_way_past :
    (n : ℕ) (front base : List ℕ)
    → n ≤ length front
    → ¬ IsFreeOf b'\\' (drop n (front ++ b'\\' ∷ base))
no_way_past zero [] base h free = free.0 refl
no_way_past zero (x ∷ front) base h free = no_way_past zero front base (omega arith) free.1
no_way_past (suc n) [] base h free = absurd (omega arith)
no_way_past (suc n) (x ∷ front) base h free = no_way_past n front base (omega arith) free

-- An extension ".exe" is behind the directory.
pub extension_in_base :
    (dir base : List ℕ) (k : ℕ) → IsDirectory dir → IsExe (drop k (dir ++ base)) → length dir ≤ k
extension_in_base dir base k (inl empty) exe = omega (arith, ap length empty)
extension_in_base dir base k (inr (front, ends)) exe = elim (dec_lt k (length dir)) [
  | no past ↦ omega arith
  | yes inside ↦
      let long : length dir ≡ suc (length front) =
        ap length ends ∙ omega (arith, length-append front (b'\\' ∷ [])) in
      let whole_name : dir ++ base ≡ front ++ b'\\' ∷ base =
        ap (λ (t : List ℕ). t ++ base) ends ∙ append_assoc front (b'\\' ∷ []) base in
      absurd (
        no_way_past k front base (omega arith) (
          subst (λ (t : List ℕ). IsFreeOf b'\\' (drop k t)) whole_name
            (exe_facts (drop k (dir ++ base)) exe).no_backslash))
]
