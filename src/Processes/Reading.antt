-- ===== src/Processes/Reading.antt =====
-- A printed status file is read back.
use nuke.Base.{ℕ, ◌≡◌, ◌≢◌, refl, ap, ◌∙◌, arith, List, [], ◌∷◌, ◌++◌, append_assoc}
use nuke.Base.Result.{ok}
use nuke.Base.Text.{IsFreeOf}
use nuke.Text.{split}
use nuke.Text.Splitting.{print_ended, split-print_ended, split_two, AllFree}
use nuke.Processes.Status.{Entry, entry_of, add_lines, create_content_map, newline, colon_tab}

abbrev pub print_entry : Entry → List ℕ
print_entry e = e.key ++ b':' ∷ 9 ∷ e.value

-- A line of a key and a value without a colon and without an end of line.
pub record IsEntry (e : Entry) : Type 0 where
  pub key_colon : IsFreeOf b':' e.key
  pub value_colon : IsFreeOf b':' e.value
  pub line : IsFreeOf 10 (print_entry e)
  pub given : e.value ≢ []

pub entry_of-print_entry :
    (key value : List ℕ)
    → IsFreeOf b':' key
    → IsFreeOf b':' value
    → value ≢ []
    → entry_of (split (key ++ b':' ∷ 9 ∷ value) colon_tab)
      ≡ ok (record { key = key; value = value })
unfolding entry_of
entry_of-print_entry key [] hk hv given = absurd (given refl)
entry_of-print_entry key (y ∷ ys) hk hv given =
    rw (← append_assoc key (b':' ∷ 9 ∷ []) (y ∷ ys))
      (ap entry_of (split_two b':' (9 ∷ []) key y ys hk hv))

abbrev pub AreEntries : List Entry → Type 0
AreEntries [] = Unit
AreEntries (e ∷ es) = IsEntry e × AreEntries es

abbrev pub lines_of : List Entry → List (List ℕ)
lines_of [] = []
lines_of (e ∷ es) = print_entry e ∷ lines_of es

abbrev pub print_entries : List Entry → List ℕ
print_entries es = print_ended 10 [] (lines_of es)

add_lines-lines_of : (es : List Entry) → AreEntries es → add_lines (lines_of es) ≡ ok es
unfolding add_lines
add_lines-lines_of [] tt = refl
add_lines-lines_of (e ∷ es) (h, hs) =
    rw (entry_of-print_entry e.key e.value h.key_colon h.value_colon h.given)
      (rw (add_lines-lines_of es hs) refl)

pub lines_of-AllFree : (es : List Entry) → AreEntries es → AllFree 10 [] (lines_of es)
lines_of-AllFree [] tt = tt
lines_of-AllFree (e ∷ es) (h, hs) = (h.line, lines_of-AllFree es hs)

pub create_content_map_given :
    (text : List ℕ) → text ≢ [] → create_content_map text ≡ add_lines (split text newline)
unfolding create_content_map
create_content_map_given [] given = absurd (given refl)
create_content_map_given (x ∷ xs) given = refl

not_empty : (xs : List ℕ) (y : ℕ) (ys : List ℕ) → xs ++ y ∷ ys ≢ []
not_empty [] y ys e = ground (arith, e)
not_empty (x ∷ xs) y ys e = ground (arith, e)

pub not_empty_ended : (p : List ℕ) (ps : List (List ℕ)) → print_ended 10 [] (p ∷ ps) ≢ []
not_empty_ended [] ps e = ground (arith, e)
not_empty_ended (x ∷ xs) ps e = ground (arith, e)

-- For entries whose keys and values hold no colon and no end of line, with values that are not
-- empty, `CreateProcStatusFileContentMap` of the printed file makes the assignments of the entries
-- in order.
pub create_content_map-print_entries :
    (e : Entry) (es : List Entry)
    → AreEntries (e ∷ es)
    → create_content_map (print_entries (e ∷ es)) ≡ ok (e ∷ es)
create_content_map-print_entries e es h =
    create_content_map_given _ (not_empty_ended (print_entry e) (lines_of es))
    ∙ ap add_lines
        (split-print_ended 10 [] (print_entry e) (lines_of es) (lines_of-AllFree (e ∷ es) h))
    ∙ add_lines-lines_of (e ∷ es) h
