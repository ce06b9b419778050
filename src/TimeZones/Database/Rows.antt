-- ===== src/TimeZones/Database/Rows.antt =====
-- A file of the format that ParseTimeZoneIds describes gives its identifiers.
use nuke.Base.{
  ℕ, ◌+◌, ◌-◌, ◌≡◌, ◌≢◌, ◌<◌, refl, ap, ◌∙◌, arith, List, [], ◌∷◌, ◌++◌, Option, none, some, length,
  drop, append_assoc, append_nil, drop-add, add_assoc,
}
use nuke.Base.Text.{
  find, find_from, IsFreeOf, find-IsFreeOf, find-first, drop-length, take-length, ended_lines-line,
  ended_lines-unended, ==_differs, plus,
}
use nuke.TimeZones.Database.{
  tab, time_zone_id, parse_line, parse_lines, parse_time_zone_ids, nonempty,
}

-- A line with a territory, coordinates, an identifier, and comments behind a further tab.
pub record Row : Type 0 where
  pub territory : List ℕ
  pub coordinates : List ℕ
  pub id : List ℕ
  pub comments : Option (List ℕ)

abbrev pub comment_text : Option (List ℕ) → List ℕ
comment_text none = []
comment_text (some text) = tab ∷ text

abbrev pub print_row : Row → List ℕ
print_row r = r.territory ++ tab ∷ (r.coordinates ++ tab ∷ (r.id ++ comment_text r.comments))

add_sub : (a b : ℕ) → a + b - a ≡ b
add_sub a b = omega arith

drop-behind : (xs ys : List ℕ) → drop (length xs + 1) (xs ++ tab ∷ ys) ≡ ys
drop-behind xs ys =
    drop-add (length xs) 1 (xs ++ tab ∷ ys) ∙ ap (drop 1) (drop-length xs (tab ∷ ys))

-- Behind `xs` and a separator, a search goes on in what follows.
find_from-first :
    (xs ys zs : List ℕ)
    → IsFreeOf tab ys
    → find_from tab (xs ++ tab ∷ (ys ++ tab ∷ zs)) (length xs + 1)
      ≡ some (length xs + 1 + length ys)
unfolding find_from
find_from-first xs ys zs absent =
    rw (drop-behind xs (ys ++ tab ∷ zs)) (rw (find-first tab ys zs absent) refl)

drop-behind_two :
    (xs ys zs : List ℕ) → drop (length xs + 1 + length ys + 1) (xs ++ tab ∷ (ys ++ tab ∷ zs)) ≡ zs
drop-behind_two xs ys zs =
    ap (λ (n : ℕ). drop n (xs ++ tab ∷ (ys ++ tab ∷ zs))) (add_assoc (length xs + 1) (length ys) 1)
    ∙ drop-add (length xs + 1) (length ys + 1) (xs ++ tab ∷ (ys ++ tab ∷ zs))
    ∙ rw (drop-behind xs (ys ++ tab ∷ zs)) (drop-behind ys zs)

find_from-behind_two :
    (xs ys zs : List ℕ)
    → find_from tab (xs ++ tab ∷ (ys ++ tab ∷ zs)) (length xs + 1 + length ys + 1)
      ≡ plus (length xs + 1 + length ys + 1) (find tab zs)
unfolding find_from
find_from-behind_two xs ys zs = rw (drop-behind_two xs ys zs) refl

module _ (xs ys : List ℕ) (xs_tab : IsFreeOf tab xs) (ys_tab : IsFreeOf tab ys) where
  time_zone_id-last :
      (zs : List ℕ) → IsFreeOf tab zs → time_zone_id (xs ++ tab ∷ (ys ++ tab ∷ zs)) ≡ nonempty zs
  unfolding time_zone_id
  time_zone_id-last zs zs_tab = rw (find-first tab xs (ys ++ tab ∷ zs) xs_tab) (
      rw (find_from-first xs ys zs ys_tab) (
        rw (find_from-behind_two xs ys zs)
          (rw (find-IsFreeOf tab zs zs_tab) (ap nonempty (drop-behind_two xs ys zs)))))

  time_zone_id-middle :
      (zs more : List ℕ)
      → IsFreeOf tab zs
      → time_zone_id (xs ++ tab ∷ (ys ++ tab ∷ (zs ++ tab ∷ more))) ≡ nonempty zs
  unfolding time_zone_id
  time_zone_id-middle zs more zs_tab =
      rw (find-first tab xs (ys ++ tab ∷ (zs ++ tab ∷ more)) xs_tab) (
        rw (find_from-first xs ys (zs ++ tab ∷ more) ys_tab) (
          rw (find_from-behind_two xs ys (zs ++ tab ∷ more)) (
            rw (find-first tab zs more zs_tab) (
              rw (drop-behind_two xs ys (zs ++ tab ∷ more)) (
                rw (add_sub (length xs + 1 + length ys + 1) (length zs))
                  (ap nonempty (take-length zs (tab ∷ more))))))))

abbrev pub NoHash : List ℕ → Type 0
NoHash [] = Unit
NoHash (x ∷ xs) = x ≢ b'#'

abbrev pub AreFreeOf : ℕ → Option (List ℕ) → Type 0
AreFreeOf c none = Unit
AreFreeOf c (some text) = IsFreeOf c text

-- A row whose parts hold no tab and no end of line, with an identifier, that is no comment.
pub record IsRow (r : Row) : Type 0 where
  pub territory_tab : IsFreeOf tab r.territory
  pub territory_line : IsFreeOf 10 r.territory
  pub territory_hash : NoHash r.territory
  pub coordinates_tab : IsFreeOf tab r.coordinates
  pub coordinates_line : IsFreeOf 10 r.coordinates
  pub id_tab : IsFreeOf tab r.id
  pub id_line : IsFreeOf 10 r.id
  pub id_given : 0 < length r.id
  pub comments_line : AreFreeOf 10 r.comments

IsFreeOf-append : (c : ℕ) (xs ys : List ℕ) → IsFreeOf c xs → IsFreeOf c ys → IsFreeOf c (xs ++ ys)
IsFreeOf-append c [] ys hx hy = hy
IsFreeOf-append c (x ∷ xs) ys (differ, hx) hy = (differ, IsFreeOf-append c xs ys hx hy)

comment_text-line : (t : Option (List ℕ)) → AreFreeOf 10 t → IsFreeOf 10 (comment_text t)
comment_text-line none h = tt
comment_text-line (some text) h = (omega arith, h)

print_row-line : (r : Row) → IsRow r → IsFreeOf 10 (print_row r)
print_row-line r h = IsFreeOf-append 10 r.territory _ h.territory_line (
  omega arith,
  IsFreeOf-append 10 r.coordinates _ h.coordinates_line (
    omega arith,
    IsFreeOf-append 10 r.id _ h.id_line (comment_text-line r.comments h.comments_line),
  ),
)

nonempty-some : (xs : List ℕ) → 0 < length xs → nonempty xs ≡ some xs
nonempty-some [] given = absurd (omega (arith, given))
nonempty-some (x ∷ xs) given = refl

time_zone_id-comments :
    (r : Row) (comments : Option (List ℕ))
    → IsRow r
    → time_zone_id (r.territory ++ tab ∷ (r.coordinates ++ tab ∷ (r.id ++ comment_text comments)))
      ≡ nonempty r.id
time_zone_id-comments r none h =
    rw (append_nil r.id)
      (time_zone_id-last r.territory r.coordinates h.territory_tab h.coordinates_tab r.id h.id_tab)
time_zone_id-comments r (some text) h =
    time_zone_id-middle r.territory r.coordinates h.territory_tab h.coordinates_tab r.id text
      h.id_tab

parse_line-plain :
    (start rest : List ℕ)
    → NoHash start
    → parse_line (start ++ tab ∷ rest) ≡ time_zone_id (start ++ tab ∷ rest)
unfolding parse_line
parse_line-plain [] rest plain = refl
parse_line-plain (x ∷ xs) rest plain = rw (==_differs x b'#' plain) refl

parse_line-print_row : (r : Row) → IsRow r → parse_line (print_row r) ≡ some r.id
parse_line-print_row r h =
    parse_line-plain r.territory _ h.territory_hash
    ∙ time_zone_id-comments r r.comments h
    ∙ nonempty-some r.id h.id_given

abbrev pub print_rows : List Row → List ℕ
print_rows [] = []
print_rows (r ∷ rs) = print_row r ++ 10 ∷ print_rows rs

abbrev pub ids : List Row → List (List ℕ)
ids [] = []
ids (r ∷ rs) = r.id ∷ ids rs

abbrev pub AreRows : List Row → Type 0
AreRows [] = Unit
AreRows (r ∷ rs) = IsRow r × AreRows rs

-- For any rows of territory, coordinates, identifier and comments, without tabs (the comments may
-- have some) and ends of line in them, with identifiers, and no territory that begins like a
-- comment, parsing the printed table gives the identifiers in order. A last line without an end of
-- line gives nothing.
pub parse_time_zone_ids-print_rows :
    (rows : List Row) (unended : List ℕ)
    → AreRows rows
    → IsFreeOf 10 unended
    → parse_time_zone_ids (print_rows rows ++ unended) ≡ ids rows
unfolding parse_time_zone_ids parse_lines
parse_time_zone_ids-print_rows [] unended tt absent =
    rw (ended_lines-unended [] unended absent) refl
parse_time_zone_ids-print_rows (r ∷ rs) unended (h, hs) absent =
    ap (λ (t : List ℕ). parse_time_zone_ids t)
      (append_assoc (print_row r) (10 ∷ print_rows rs) unended)
    ∙ rw (ended_lines-line [] (print_row r) (print_rows rs ++ unended) (print_row-line r h)) (
        rw (parse_line-print_row r h) (
          ap (λ (t : List (List ℕ)). r.id ∷ t)
            (parse_time_zone_ids-print_rows rs unended hs absent)))
