-- ===== src/Path/Names.antt =====
-- `GetFileName` and `GetDirectoryName` of System/IO/Path.cpp on Linux.
use nuke.Base.{
  ℕ, zero, suc, ◌+◌, ◌-◌, ◌≤◌, ◌<◌, ◌≡◌, refl, arith, Bool, true, false, ◌||◌, ◌==◌, ltb, leb, List,
  [], ◌∷◌, ◌++◌, length, length-append, if◌then◌else◌, drop, take, ap, ◌∙◌, ◌⊎◌, inl, inr,
  Bool-cases,
}
use mathlib.Core.Path.{subst}
use nuke.Base.Result.{Result, ok, throws, undefined}
use nuke.Path.Interface.{char_at}
use nuke.Path.Linux.{
  linux, slash, get_root_length, is_directory_separator, is_path_rooted, is_effectively_empty,
}
use nuke.Path.{
  get_file_name, file_name_from, get_path_root, back_to_separator, back_over_separators,
  get_directory_name, get_directory_name_offset, prefix_to, last_char,
}

abbrev pub contains_separator : List ℕ → Bool
contains_separator [] = false
contains_separator (c ∷ cs) = (c == slash) || contains_separator cs

-- What `GetFileName` gives for a path: the part behind the last separator, or, if there is none, a
-- read outside of the path.
pub data FileName (path : List ℕ) : Result (List ℕ) → Type 0 where
  behind_separator :
      (dir name : List ℕ)
      → path ≡ dir ++ slash ∷ name
      → contains_separator name ≡ false
      → FileName path (ok name)
  no_separator : contains_separator path ≡ false → FileName path (throws undefined)

plain_char : (cs : List ℕ) (k : ℕ) → contains_separator cs ≡ false → (char_at cs k == slash) ≡ false
plain_char [] k h = refl
plain_char (c ∷ cs) zero h = ground arith
plain_char (c ∷ cs) (suc k) h = plain_char cs k (ground arith)

pub char_at-append : (xs ys : List ℕ) (k : ℕ) → char_at (xs ++ ys) (length xs + k) ≡ char_at ys k
char_at-append [] ys k = ap (λ (t : ℕ). char_at ys t) (omega arith)
char_at-append (x ∷ xs) ys k =
    let index : suc (length xs) + k ≡ suc (length xs + k) = omega arith in
    rw index (char_at-append xs ys k)

pub drop-append : (xs ys : List ℕ) (k : ℕ) → drop (length xs + k) (xs ++ ys) ≡ drop k ys
drop-append [] ys k = ap (λ (t : ℕ). drop t ys) (omega arith)
drop-append (x ∷ xs) ys k =
    let index : suc (length xs) + k ≡ suc (length xs + k) = omega arith in
    rw index (drop-append xs ys k)

pub take-append : (xs ys : List ℕ) → take (length xs) (xs ++ ys) ≡ xs
take-append [] ys = refl
take-append (x ∷ xs) ys = rw (take-append xs ys) refl

-- The last separator splits a path.
last_separator :
    (path : List ℕ)
    → (contains_separator path ≡ false)
      ⊎ ((dir : List ℕ) × (name : List ℕ) × (path ≡ dir ++ slash ∷ name)
          × (contains_separator name ≡ false))
last_separator [] = inl refl
last_separator (c ∷ cs) = elim (last_separator cs) [
  | inr (dir, name, e, h) ↦ inr (c ∷ dir, name, ap (λ (t : List ℕ). c ∷ t) e, h)
  | inl none ↦ elim (Bool-cases (c == slash)) [
    | inl is ↦ inr ([], cs, ap (λ (t : ℕ). t ∷ cs) (ground arith), none)
    | inr is_not ↦ inl (ground arith)
  ]
]

or_true : (b : Bool) → (b || true) ≡ true
or_true true = refl
or_true false = refl

module _ (dir name : List ℕ) (root : ℕ) where
  separator_stops : file_name_from linux (dir ++ slash ∷ name) root (suc (length dir + 0)) ≡ ok name
  unfolding file_name_from linux is_directory_separator
  separator_stops =
      let at : char_at (dir ++ slash ∷ name) (length dir + 0) ≡ slash =
        char_at-append dir (slash ∷ name) 0 in
      let behind : length dir + 0 + 1 ≡ length dir + 1 = omega arith in
      rw (at, or_true (ltb (length dir + 0) root), behind, drop-append dir (slash ∷ name) 1) refl

  -- Steps over the characters of the name.
  file_name_lem :
      (k : ℕ)
      → contains_separator name ≡ false
      → root ≤ length dir + 1
      → file_name_from linux (dir ++ slash ∷ name) root (suc (length dir + k)) ≡ ok name
  unfolding file_name_from linux is_directory_separator
  file_name_lem zero h small = separator_stops
  file_name_lem (suc k) h small =
      let at : char_at (dir ++ slash ∷ name) (length dir + suc k) ≡ char_at name k =
        char_at-append dir (slash ∷ name) (suc k) in
      let inside : ltb (length dir + suc k) root ≡ false = ground arith in
      let index : length dir + suc k ≡ suc (length dir + k) = omega arith in
      rw (inside, at, plain_char name k h)
        (ap (λ (t : ℕ). file_name_from linux (dir ++ slash ∷ name) root t) index
          ∙ file_name_lem k h small)

no_separator_lem :
    (path : List ℕ) (i : ℕ)
    → contains_separator path ≡ false
    → file_name_from linux path 0 i ≡ throws undefined
unfolding file_name_from linux is_directory_separator
no_separator_lem path zero h = refl
no_separator_lem path (suc i) h =
    let inside : ltb i 0 ≡ false = ground arith in
    rw (inside, plain_char path i h) (no_separator_lem path i h)

plain_root :
    (path : List ℕ) → contains_separator path ≡ false → length (get_path_root linux path) ≡ 0
unfolding get_path_root nuke.Path.is_path_rooted is_path_rooted linux
plain_root path h = ground (arith, plain_char path 0 h)

if_small : (b : Bool) → length (if b then slash ∷ [] else []) ≤ 1
if_small true = omega arith
if_small false = omega arith

root_small : (path : List ℕ) → length (get_path_root linux path) ≤ 1
unfolding get_path_root linux
root_small path = if_small (nuke.Path.is_path_rooted linux path)

file_name_of_split :
    (dir name : List ℕ)
    → contains_separator name ≡ false
    → get_file_name linux (dir ++ slash ∷ name) ≡ ok name
unfolding get_file_name
file_name_of_split dir name h =
    let path = dir ++ slash ∷ name in
    let size : length path ≡ suc (length dir + length name) =
      omega (arith, length-append dir (slash ∷ name)) in
    let root = length (get_path_root linux path) in
    rw size (file_name_lem dir name root (length name) h (omega (arith, root_small path)))

-- On Linux `GetFileName` returns the part behind the last separator of any path that has one, and
-- reads outside of a path that has none.
pub get_file_name-FileName : (path : List ℕ) → FileName path (get_file_name linux path)
unfolding get_file_name
get_file_name-FileName path = elim (last_separator path) [
  | inl none ↦
      rw (plain_root path none, no_separator_lem path (length path) none) (no_separator none)
  | inr (dir, name, e, h) ↦ rw (e, file_name_of_split dir name h) (behind_separator dir name refl h)
]

module _ (dir name : List ℕ) (root : ℕ) where
  back_to_separator_lem :
      (k : ℕ)
      → contains_separator name ≡ false
      → root ≤ length dir
      → back_to_separator linux (dir ++ slash ∷ name) root (suc (length dir + k)) ≡ length dir
  unfolding back_to_separator linux is_directory_separator
  back_to_separator_lem zero h small =
      let at : char_at (dir ++ slash ∷ name) (length dir + 0) ≡ slash =
        char_at-append dir (slash ∷ name) 0 in
      let inside : leb (suc (length dir + 0)) root ≡ false = ground arith in
      rw (inside, at) (omega arith)
  back_to_separator_lem (suc k) h small =
      let at : char_at (dir ++ slash ∷ name) (length dir + suc k) ≡ char_at name k =
        char_at-append dir (slash ∷ name) (suc k) in
      let inside : leb (suc (length dir + suc k)) root ≡ false = ground arith in
      let index : length dir + suc k ≡ suc (length dir + k) = omega arith in
      rw (inside, at, plain_char name k h)
        (ap (λ (t : ℕ). back_to_separator linux (dir ++ slash ∷ name) root t) index
          ∙ back_to_separator_lem k h small)

char_at-in_front : (xs ys : List ℕ) (k : ℕ) → k < length xs → char_at (xs ++ ys) k ≡ char_at xs k
char_at-in_front [] ys k h = absurd (omega arith)
char_at-in_front (x ∷ xs) ys zero h = refl
char_at-in_front (x ∷ xs) ys (suc k) h = char_at-in_front xs ys k (omega arith)

linux_root_small : (path : List ℕ) → linux.get_root_length path ≤ 1
unfolding linux get_root_length
linux_root_small path = ground arith

linux_not_empty : (path : List ℕ) → 0 < length path → linux.is_effectively_empty path ≡ false
unfolding linux is_effectively_empty
linux_not_empty path h = ground arith

back_over_stays :
    (path : List ℕ) (root end : ℕ)
    → 0 < end
    → (char_at path (end - 1) == slash) ≡ false
    → back_over_separators linux path root end ≡ end
unfolding back_over_separators linux is_directory_separator
back_over_stays path root zero h plain = absurd (omega arith)
back_over_stays path root (suc end) h plain =
    let index : suc end - 1 ≡ end = omega arith in
    let at_end : (char_at path end == slash) ≡ false =
      subst (λ (t : ℕ). (char_at path t == slash) ≡ false) index plain in
    rw at_end (ground arith)

-- A directory that is not empty and does not end in a separator, followed by a separator and a name
-- without one, has `GetDirectoryName` return the directory and `GetFileName` the name.
pub get_directory_name_lem :
    (dir name : List ℕ)
    → 0 < length dir
    → (last_char linux dir == slash) ≡ false
    → contains_separator name ≡ false
    → (get_directory_name linux (dir ++ slash ∷ name) ≡ dir)
      × (get_file_name linux (dir ++ slash ∷ name) ≡ ok name)
unfolding get_directory_name get_directory_name_offset last_char prefix_to
get_directory_name_lem dir name filled ends h =
    let path = dir ++ slash ∷ name in
    let root = linux.get_root_length path in
    let small = linux_root_small path in
    let size : length path ≡ suc (length dir + length name) =
      omega (arith, length-append dir (slash ∷ name)) in
    let longer : leb (suc (length dir + length name)) root ≡ false = ground arith in
    let last : char_at path (length dir - 1) ≡ char_at dir (length dir - 1) =
      char_at-in_front dir (slash ∷ name) (length dir - 1) (omega arith) in
    let plain : (char_at path (length dir - 1) == slash) ≡ false = rw last ends in
    (
      rw
          (
            linux_not_empty path (omega arith),
            size,
            longer,
            back_to_separator_lem dir name root (length name) h (omega arith),
            back_over_stays path root (length dir) filled plain,
          )
          (take-append dir (slash ∷ name)),
      file_name_of_split dir name h,
    )
