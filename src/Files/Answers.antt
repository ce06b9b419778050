-- ===== src/Files/Answers.antt =====
-- The answers of the functions that keep static objects do not depend on what was asked before.
use nuke.Base.{
  ◌^◌, ◌-◌, ◌≡◌, refl, sym, ap, arith, Bool, true, false, Bool-cases, inl, inr, ◌⊎◌, List, [], ◌∷◌,
  Option, none, some, if◌then◌else◌,
}
use nuke.Base.Int.{pos, eqb_ℤ}
use nuke.Base.Result.{Result, ok, throws, out_of_range}
use nuke.Files.{
  EnumerationOptions, win32, or_attributes, set_recurse_subdirectories, set_ignore_inaccessible,
  set_attributes_to_skip, set_match_type, set_max_recursion_depth, new_options,
}
use nuke.Files.Statics.{
  zeroed, Statics, no_statics, Call, compatible, compatible_recursive, default, from_search_option,
  Request, asks_compatible, asks_recursive, asks_default, asks_for, serve, statics_after, serve_all,
}

-- The options of a search as the DOS commands do it, with or without the directories below.
abbrev pub search_options : (recursive : Bool) → EnumerationOptions
search_options recursive = record zeroed {
  recurse_subdirectories = recursive;
  match_type = win32;
  max_recursion_depth = pos (2 ^ 31 - 1);
}

-- Those that leave out what cannot be read, and hidden and system files.
abbrev pub usual_options : EnumerationOptions
usual_options = record zeroed {
  ignore_inaccessible = true;
  attributes_to_skip = 6;
  max_recursion_depth = pos (2 ^ 31 - 1);
}

abbrev pub expected : Request → Result EnumerationOptions
expected asks_compatible = ok (search_options false)
expected asks_recursive = ok (search_options true)
expected asks_default = ok usual_options
expected (asks_for search_option) =
    if eqb_ℤ search_option (pos 0)
    then ok (search_options false)
    else if eqb_ℤ search_option (pos 1)
    then ok (search_options true)
    else throws out_of_range

abbrev pub options_of : Result Call → Result EnumerationOptions
options_of (throws e) = throws e
options_of (ok call) = ok call.options

-- A static object is not constructed yet, or it is as its function leaves it.
abbrev IsKept : EnumerationOptions → Option EnumerationOptions → Type 0
IsKept options kept = (kept ≡ none) ⊎ (kept ≡ some options)

record IsSettled (s : Statics) : Type 0 where
  plain_kept : IsKept (search_options false) s.compatible
  recursive_kept : IsKept (search_options true) s.compatible_recursive
  default_kept : IsKept usual_options s.default

-- A call gives the options, and leaves the objects as they should be.
abbrev Serves : Result EnumerationOptions → Result Call → Type 0
Serves answer (throws e) = answer ≡ throws e
Serves answer (ok call) = (answer ≡ ok call.options) × IsSettled call.statics

module _ (s : Statics) (settled : IsSettled s) where
  compatible_set :
      (options : EnumerationOptions)
      → options ≡ search_options false
      → IsSettled (record s { compatible = some options })
  compatible_set options e = record {
    plain_kept = inr (ap some e);
    recursive_kept = settled.recursive_kept;
    default_kept = settled.default_kept;
  }

  recursive_set :
      (options : EnumerationOptions)
      → options ≡ search_options true
      → IsSettled (record s { compatible_recursive = some options })
  recursive_set options e = record {
    plain_kept = settled.plain_kept;
    recursive_kept = inr (ap some e);
    default_kept = settled.default_kept;
  }

  default_set :
      (options : EnumerationOptions)
      → options ≡ usual_options
      → IsSettled (record s { default = some options })
  default_set options e = record {
    plain_kept = settled.plain_kept;
    recursive_kept = settled.recursive_kept;
    default_kept = inr (ap some e);
  }

  compatible-Serves : Serves (ok (search_options false)) (compatible s)
  unfolding compatible new_options set_max_recursion_depth set_ignore_inaccessible
      set_attributes_to_skip set_match_type or_attributes
  compatible-Serves = elim (settled.plain_kept) [
    | inl fresh ↦ rw fresh (refl, compatible_set _ refl)
    | inr kept ↦ rw kept (refl, compatible_set _ refl)
  ]

  compatible_recursive-Serves : Serves (ok (search_options true)) (compatible_recursive s)
  unfolding compatible_recursive new_options set_max_recursion_depth set_ignore_inaccessible
      set_attributes_to_skip set_match_type or_attributes set_recurse_subdirectories
  compatible_recursive-Serves = elim (settled.recursive_kept) [
    | inl fresh ↦ rw fresh (refl, recursive_set _ refl)
    | inr kept ↦ rw kept (refl, recursive_set _ refl)
  ]

  default-Serves : Serves (ok usual_options) (default s)
  unfolding default new_options set_max_recursion_depth set_ignore_inaccessible
      set_attributes_to_skip or_attributes
  default-Serves = elim (settled.default_kept) [
    | inl fresh ↦ rw fresh (refl, default_set _ refl)
    | inr kept ↦ rw kept (refl, default_set _ refl)
  ]

  serves : (r : Request) → Serves (expected r) (serve s r)
  unfolding serve from_search_option
  serves asks_compatible = compatible-Serves
  serves asks_recursive = compatible_recursive-Serves
  serves asks_default = default-Serves
  serves (asks_for search_option) = elim (Bool-cases (eqb_ℤ search_option (pos 0))) [
    | inl top ↦ elim (Bool-cases (eqb_ℤ search_option (pos 1))) [
      | inl both ↦ absurd (ground arith)
      | inr other ↦ rw (top, other) compatible-Serves
    ]
    | inr not_top ↦ elim (Bool-cases (eqb_ℤ search_option (pos 1))) [
      | inl below ↦ rw (not_top, below) compatible_recursive-Serves
      | inr bad ↦ rw (not_top, bad) refl
    ]
  ]

Serves-options :
    (answer : Result EnumerationOptions) (result : Result Call)
    → Serves answer result
    → options_of result ≡ answer
Serves-options answer (throws e) h = sym h
Serves-options answer (ok call) (h, settled) = sym h

Serves-IsSettled :
    (s : Statics) (answer : Result EnumerationOptions) (result : Result Call)
    → IsSettled s
    → Serves answer result
    → IsSettled (statics_after s result)
Serves-IsSettled s answer (throws e) before h = before
Serves-IsSettled s answer (ok call) before (h, settled) = settled

serve_all-IsSettled : (s : Statics) (rs : List Request) → IsSettled s → IsSettled (serve_all s rs)
unfolding serve_all
serve_all-IsSettled s [] settled = settled
serve_all-IsSettled s (r ∷ rs) settled =
    serve_all-IsSettled (statics_after s (serve s r)) rs
      (Serves-IsSettled s (expected r) (serve s r) settled (serves s settled r))

no_statics-IsSettled : IsSettled no_statics
no_statics-IsSettled = record {
  plain_kept = inl refl;
  recursive_kept = inl refl;
  default_kept = inl refl;
}

-- Whatever was asked before, `Compatible` and `CompatibleRecursive` give the options that match as DOS
-- does, skip no attributes and report what cannot be read, without and with subdirectories; `Default`
-- gives those that skip hidden and system files and what cannot be read; and `FromSearchOption` gives the
-- first for 0, the second for 1, and throws out_of_range for any other number.
pub serve_all-expected :
    (rs : List Request) (r : Request) → options_of (serve (serve_all no_statics rs) r) ≡ expected r
serve_all-expected rs r =
    let s = serve_all no_statics rs in
    Serves-options (expected r) (serve s r)
      (serves s (serve_all-IsSettled no_statics rs no_statics-IsSettled) r)
