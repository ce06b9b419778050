-- ===== src/Processes/Windows/Shortening.antt =====
-- GetProcessShortName takes off directories and ".exe", and nothing else.
use nuke.Base.{
  ℕ, ◌+◌, ◌-◌, ◌^◌, ◌<◌, ◌≡◌, refl, sym, ap, ◌∙◌, Bool, true, false, List, ◌++◌, inl, inr,
  Bool-cases, length, take, drop, length-append, take_all, append_assoc, arith,
}
use nuke.Base.Int.{pos, negsuc, ◌-ℤ◌, eqb_ℤ}
use nuke.Base.Word.{to_u64}
use nuke.Base.Result.{ok}
use nuke.Base.Text.{IsFreeOf, substr_to_end, drop-length}
use mathlib.Core.Path.{subst}
use nuke.Processes.Windows.ShortName.{
  equal_ignoring_case, dot_exe, before_extension, get_process_short_name,
}
use nuke.Processes.Windows.Naming.{
  IsExe, IsDirectory, Shortened, cut, whole, period_cases, exe_facts, IsFreeOf-drop, equal-IsExe,
}
use nuke.Processes.Windows.Marks.{
  period_of, period_of-exe, shortened, drop-start, take-drop, extension_in_base,
}

module _ (dir base : List ℕ) (is_directory : IsDirectory dir) (free : IsFreeOf b'\\' base)
    (no_end : IsFreeOf 0 (dir ++ base)) (small : length dir + length base < 2 ^ 31) where
  abbrev name : List ℕ
  name = dir ++ base

  name_length : length name ≡ length dir + length base
  name_length = length-append dir base

  -- The code's test, where the period stands at `k`.
  abbrev test_at : ℕ → Bool
  test_at k = equal_ignoring_case (substr_to_end name (to_u64 (pos k))) dot_exe

  test_drop : (k : ℕ) → k < 2 ^ 31 → test_at k ≡ equal_ignoring_case (drop k name) dot_exe
  test_drop k h = ap (λ (t : ℕ). equal_ignoring_case (substr_to_end name t) dot_exe) (omega arith)

  not_found : (k : ℕ) → eqb_ℤ (pos k) (negsuc 0) ≡ false
  not_found k = ground arith

  -- If the name has the ending, the code finds it.
  found_exe :
      (stem ext : List ℕ)
      → base ≡ stem ++ ext
      → IsExe ext
      → (k : ℕ) × (period_of name ≡ pos k) × (test_at k ≡ true)
  found_exe stem ext parts exe =
      let regroup : name ≡ (dir ++ stem) ++ ext =
        ap (λ (t : List ℕ). dir ++ t) parts ∙ sym (append_assoc dir stem ext) in
      let k = length (dir ++ stem) in
      let fits : k < 2 ^ 31 =
        omega (arith, length-append dir stem, ap length parts, length-append stem ext) in
      (
        k,
        ap period_of regroup ∙ period_of-exe (dir ++ stem) ext exe,
        test_drop k fits
            ∙ ap (λ (t : List ℕ). equal_ignoring_case (drop k t) dot_exe) regroup
            ∙ ap (λ (t : List ℕ). equal_ignoring_case t dot_exe) (drop-length (dir ++ stem) ext)
            ∙ (exe_facts ext exe).equal,
      )

  keeps_whole :
      before_extension name (period_of name) ≡ pos (length name) -ℤ pos 1
      → ((stem ext : List ℕ) → base ≡ stem ++ ext → ¬ IsExe ext)
      → (short : List ℕ) × (get_process_short_name name ≡ ok short) × Shortened base short
  keeps_whole before none_ends = (
    base,
    shortened dir base (length base) is_directory free small (omega arith)
          (before ∙ ap (λ (t : ℕ). pos t -ℤ pos 1) name_length)
        ∙ ap ok (take_all (length base) base (omega arith)),
    whole none_ends,
  )

  cuts_extension :
      (k : ℕ)
      → k < length name
      → period_of name ≡ pos k
      → test_at k ≡ true
      → (short : List ℕ) × (get_process_short_name name ≡ ok short) × Shortened base short
  cuts_extension k below found test =
      let fits : k < 2 ^ 31 = omega (arith, name_length) in
      let ending =
        equal-IsExe (drop k name) (IsFreeOf-drop 0 k name no_end) (sym (test_drop k fits) ∙ test) in
      let behind = extension_in_base dir base k is_directory ending in
      let n = k - length dir in
      let place : k ≡ length dir + n = omega arith in
      let same : drop k name ≡ drop n base =
        ap (λ (t : ℕ). drop t name) place ∙ drop-start dir base n in
      (
        take n base,
        shortened dir base n is_directory free small (omega (arith, name_length))
            (rw (found, not_found k, test) (ap (λ (t : ℕ). pos t -ℤ pos 1) place)),
        cut (take n base) (drop n base) (sym (take-drop n base)) (subst IsExe same ending),
      )

  -- Let `dir` be empty or end in a backslash, `base` have no backslash, and both together no byte 0
  -- and fewer than 2^31 bytes. Then `GetProcessShortName` of `dir` followed by `base` returns `base`
  -- without the ending ".exe", in letters of either case, and `base` itself if it has no such ending.
  pub get_process_short_name-Shortened :
      (short : List ℕ) × (get_process_short_name (dir ++ base) ≡ ok short) × Shortened base short
  get_process_short_name-Shortened = elim (period_cases 0 name (negsuc 0) (negsuc 0)) [
    | inl none_found ↦ keeps_whole (rw none_found refl) (λ stem ext parts exe.
        let (k, found, test) = found_exe stem ext parts exe in
        absurd (ground (arith, found, none_found)))
    | inr (k, below, found) ↦ elim (Bool-cases (test_at k)) [
      | inl test ↦ cuts_extension k (omega arith) found test
      | inr other ↦ keeps_whole (rw (found, not_found k, other) refl) (λ stem ext parts exe.
          let (k', found', test) = found_exe stem ext parts exe in
          let same : k ≡ k' = ground (arith, found, found') in
          absurd (ground (arith, other, ap test_at same, test)))
    ]
  ]
