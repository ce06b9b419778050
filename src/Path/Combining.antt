-- ===== src/Path/Combining.antt =====
-- `Combine` of System/IO/Path.cpp.
use nuke.Base.{
  ℕ, suc, ◌+◌, ◌<◌, ◌≡◌, refl, arith, Bool, true, false, not, ◌||◌, ◌==◌, List, [], ◌∷◌, ◌++◌,
  length, if◌then◌else◌, drop, ap, ◌∙◌,
}
use nuke.Base.Result.{ok}
use nuke.Path.Interface.{Platform}
use nuke.Path.Linux.{linux, slash, is_directory_separator, is_path_rooted}
use nuke.Path.{
  combine, combine_from, combine_step, first_component, last_char, get_file_name,
  get_directory_name,
}
use nuke.Path.Names.{contains_separator, get_directory_name_lem}

kept :
    (is_empty rooted : Bool) (i first : ℕ)
    → (is_empty || not rooted) ≡ true
    → (if is_empty then first else if rooted then i else first) ≡ first
kept true rooted i first h = refl
kept false true i first h = cc
kept false false i first h = refl

chosen :
    (is_empty rooted : Bool) (i first : ℕ)
    → is_empty ≡ false
    → rooted ≡ true
    → (if is_empty then first else if rooted then i else first) ≡ i
chosen true rooted i first e h = cc
chosen false true i first e h = refl
chosen false false i first e h = cc

not_empty : (path : List ℕ) → 0 < length path → (length path == 0) ≡ false
not_empty path h = ground arith

module _ (P : Platform) where
  -- No path of the list that is not empty is rooted.
  abbrev pub NoRoot : List (List ℕ) → Type 0
  NoRoot [] = Unit
  NoRoot (path ∷ paths) = ((length path == 0) || not (P.is_path_rooted path) ≡ true) × NoRoot paths

  first_component-NoRoot :
      (paths : List (List ℕ)) (i first : ℕ) → NoRoot paths → first_component P paths i first ≡ first
  unfolding first_component nuke.Path.is_path_rooted
  first_component-NoRoot [] i first h = refl
  first_component-NoRoot (path ∷ paths) i first (plain, h) =
      rw (kept (length path == 0) (P.is_path_rooted path) i first plain)
        (first_component-NoRoot paths (suc i) first h)

  first_component-here :
      (after : List (List ℕ)) (path : List ℕ) (i first : ℕ)
      → 0 < length path
      → P.is_path_rooted path ≡ true
      → NoRoot after
      → first_component P (path ∷ after) i first ≡ i
  unfolding first_component nuke.Path.is_path_rooted
  first_component-here after path i first filled rooted h =
      let is_filled = not_empty path filled in
      rw (chosen (length path == 0) (P.is_path_rooted path) i first is_filled rooted)
        (first_component-NoRoot after (suc i) i h)

  first_component-found :
      (before after : List (List ℕ)) (path : List ℕ) (i first : ℕ)
      → 0 < length path
      → P.is_path_rooted path ≡ true
      → NoRoot after
      → first_component P (before ++ path ∷ after) i first ≡ i + length before
  unfolding first_component nuke.Path.is_path_rooted
  first_component-found [] after path i first filled rooted h =
      first_component-here after path i first filled rooted h ∙ omega arith
  first_component-found (p ∷ before) after path i first filled rooted h =
      first_component-found before after path (suc i) _ filled rooted h ∙ omega arith

  drop_before : (before after : List (List ℕ)) → drop (length before) (before ++ after) ≡ after
  drop_before [] after = refl
  drop_before (p ∷ before) after = drop_before before after

  -- A rooted path that is not empty, with no rooted path behind it but empty ones, starts the result
  -- of `Combine` anew: what stands before it does not count.
  pub combine-rooted :
      (before after : List (List ℕ)) (path : List ℕ)
      → 0 < length path
      → P.is_path_rooted path ≡ true
      → NoRoot after
      → combine P (before ++ path ∷ after) ≡ combine P (path ∷ after)
  unfolding combine
  combine-rooted before after path filled rooted h =
      let found = first_component-found before after path 0 0 filled rooted h in
      let first = first_component-found [] after path 0 0 filled rooted h in
      let index : 0 + length before ≡ length before = omega arith in
      rw (found, first, index, drop_before before (path ∷ after)) refl

is_separator_linux : (c : ℕ) → (c == slash) ≡ false → linux.is_directory_separator c ≡ false
unfolding linux is_directory_separator
is_separator_linux c h = h

append_between : (xs ys : List ℕ) → (xs ++ slash ∷ []) ++ ys ≡ xs ++ slash ∷ ys
append_between [] ys = refl
append_between (x ∷ xs) ys = ap (λ (t : List ℕ). x ∷ t) (append_between xs ys)

either_way :
    (is_empty rooted : Bool) (first : ℕ)
    → (if is_empty then first else if rooted then first else first) ≡ first
either_way true rooted first = refl
either_way false true first = refl
either_way false false first = refl

name_is_not_rooted :
    (name : List ℕ)
    → contains_separator name ≡ false
    → ((length name == 0) || not (linux.is_path_rooted name)) ≡ true
unfolding linux is_path_rooted
name_is_not_rooted [] h = refl
name_is_not_rooted (c ∷ cs) h = ground arith

combine_two_from_start :
    (dir name : List ℕ)
    → contains_separator name ≡ false
    → first_component linux (dir ∷ name ∷ []) 0 0 ≡ 0
unfolding first_component nuke.Path.is_path_rooted
combine_two_from_start dir name h =
    rw (either_way (length dir == 0) (linux.is_path_rooted dir) 0)
      (first_component-NoRoot linux (name ∷ []) 1 0 (name_is_not_rooted name h, tt))

combine_two :
    (dir name : List ℕ)
    → 0 < length dir
    → 0 < length name
    → (last_char linux dir == slash) ≡ false
    → contains_separator name ≡ false
    → combine linux (dir ∷ name ∷ []) ≡ dir ++ slash ∷ name
unfolding combine combine_from combine_step linux
combine_two dir name filled_dir filled_name ends h =
    rw
      (
        combine_two_from_start dir name h,
        not_empty dir filled_dir,
        not_empty name filled_name,
        not_empty dir filled_dir,
        is_separator_linux (last_char linux dir) ends,
      )
      (append_between dir name)

-- On Linux, combining a directory that is not empty and does not end in a separator with a name
-- that is not empty and has no separator puts one separator between them, and `GetDirectoryName`
-- and `GetFileName` take the result apart again.
pub combine-split :
    (dir name : List ℕ)
    → 0 < length dir
    → 0 < length name
    → (last_char linux dir == slash) ≡ false
    → contains_separator name ≡ false
    → (combine linux (dir ∷ name ∷ []) ≡ dir ++ slash ∷ name)
      × (get_directory_name linux (combine linux (dir ∷ name ∷ [])) ≡ dir)
      × (get_file_name linux (combine linux (dir ∷ name ∷ [])) ≡ ok name)
combine-split dir name filled_dir filled_name ends h =
    let whole = combine_two dir name filled_dir filled_name ends h in
    let (dir_back, name_back) = get_directory_name_lem dir name filled_dir ends h in
    (whole, rw whole dir_back, rw whole name_back)
