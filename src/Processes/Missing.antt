-- ===== src/Processes/Missing.antt =====
-- Status files, of whatever other content, in which no line assigns a key.
use nuke.Base.{
  ℕ, ◌≡◌, inl, inr, refl, ap, true, false, Bool-cases, ==_iff, List, [], ◌∷◌, ◌++◌, none, ◌==◌,
}
use nuke.Base.Result.{Result, ok, throws, out_of_range, ◌>>=◌}
use nuke.Text.{starts_with, split}
use nuke.Text.Lines.{NoLine, NoneBegins, split-NoneBegins, split-Opens}
use nuke.Processes.Status.{
  Entry, entry_of, add_lines, create_content_map, parse_entries, parse_status, amount, at,
  same_bytes, newline, colon_tab,
}
use nuke.Processes.Names.{vm_hwm}

same_bytes_sound : (xs ys : List ℕ) → same_bytes xs ys ≡ true → xs ≡ ys
same_bytes_sound [] [] h = refl
same_bytes_sound [] (y ∷ ys) h = cc
same_bytes_sound (x ∷ xs) [] h = cc
same_bytes_sound (x ∷ xs) (y ∷ ys) h = elim (Bool-cases (x == y)) [
  | inl same ↦
      rw ((==_iff x y).0 same)
        (ap (λ (t : List ℕ). y ∷ t) (same_bytes_sound xs ys (rw (same) at h)))
  | inr other ↦ cc (rw (other) at h)
]

module _ (key : List ℕ) where
  -- What can become of lines none of which assigns the key.
  data Lacks : Result (List Entry) → Type 0 where
    failed : Lacks (throws out_of_range)
    lacking : (es : List Entry) → at es key ≡ none → Lacks (ok es)

  entry_differs :
      (line k v : List ℕ) (more : List (List ℕ))
      → starts_with (key ++ colon_tab) line ≡ false
      → split line colon_tab ≡ k ∷ v ∷ more
      → same_bytes k key ≡ false
  entry_differs line k v more other pieces = elim (Bool-cases (same_bytes k key)) [
    | inl same ↦
        let opens = split-Opens colon_tab line k v more pieces in
        cc (rw (same_bytes_sound k key same) at opens, other)
    | inr differs ↦ differs
  ]

  with_entry-Lacks :
      (k v : List ℕ) (entries : Result (List Entry))
      → same_bytes k key ≡ false
      → Lacks entries
      → Lacks (entries >>= (λ es. ok ((record { key = k; value = v }) ∷ es)))
  unfolding at
  with_entry-Lacks k v _ differs failed = failed
  with_entry-Lacks k v _ differs (lacking es none_is) = lacking _ (rw (none_is, differs) refl)

  line-Lacks :
      (line : List ℕ) (pieces : List (List ℕ)) (rest : Result (List Entry))
      → split line colon_tab ≡ pieces
      → starts_with (key ++ colon_tab) line ≡ false
      → Lacks rest
      → Lacks (entry_of pieces >>= (λ entry. rest >>= (λ es. ok (entry ∷ es))))
  unfolding entry_of
  line-Lacks line [] rest pieces other lacks = failed
  line-Lacks line (k ∷ []) rest pieces other lacks = failed
  line-Lacks line (k ∷ v ∷ more) rest pieces other lacks =
      with_entry-Lacks k v rest (entry_differs line k v more other pieces) lacks

  add_lines-Lacks :
      (lines : List (List ℕ)) → NoneBegins (key ++ colon_tab) lines → Lacks (add_lines lines)
  unfolding add_lines at
  add_lines-Lacks [] tt = lacking [] refl
  add_lines-Lacks (line ∷ lines) (here, others) =
      line-Lacks line (split line colon_tab) (add_lines lines) refl here
        (add_lines-Lacks lines others)

  create_content_map-Lacks :
      (text : List ℕ) → NoLine (key ++ colon_tab) text → Lacks (create_content_map text)
  unfolding create_content_map at
  create_content_map-Lacks [] h = lacking [] refl
  create_content_map-Lacks (x ∷ xs) h =
      add_lines-Lacks (split (x ∷ xs) newline) (split-NoneBegins (key ++ colon_tab) (x ∷ xs) h)

parse_entries-Lacks :
    (entries : Result (List Entry))
    → Lacks vm_hwm entries
    → (entries >>= (λ es. parse_entries es)) ≡ throws out_of_range
unfolding parse_entries amount
parse_entries-Lacks _ failed = refl
parse_entries-Lacks _ (lacking es missing) = rw (missing) refl

-- `TryParseStatusFile` throws out_of_range for every text in which no line begins with "VmHWM", a
-- colon and a tab.
pub parse_status-missing :
    (text : List ℕ) → NoLine (vm_hwm ++ colon_tab) text → parse_status text ≡ throws out_of_range
unfolding parse_status
parse_status-missing text h =
    parse_entries-Lacks (create_content_map text) (create_content_map-Lacks vm_hwm text h)
