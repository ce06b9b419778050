-- ===== src/DateTime/Printing.antt =====
-- The text of a date and time is read back.
use nuke.Base.{
  length, suc, length-append, ap, ◌^◌, ℕ, ◌+◌, ◌<◌, ◌≡◌, ◌∙◌, arith, List, [], ◌∷◌, ◌++◌,
}
use nuke.Base.Int.{pos}
use nuke.Base.Text.{
  padded, number_at, number_at-padded, substr, substr-behind, length-padded, value_from,
}
use nuke.DateTime.Gregorian.{IsDate, is_leap}
use nuke.DateTime.Value.{DateTime}
use nuke.DateTime.Fields.{hour, minute, second, millisecond}
use nuke.DateTime.Parts.{OnDate, year-OnDate, month-OnDate, day-OnDate}
use nuke.DateTime.March.{month_length-le}
use nuke.DateTime.Text.{to_string}

-- A text of 23 bytes with the numbers and what separates them at their places.
pub record IsRead (text : List ℕ) (y m d h mi s ms : ℕ) : Type 0 where
  pub whole : length text ≡ 23
  pub year_read : number_at text 0 4 ≡ y
  pub behind_year : substr text 4 1 ≡ b'-' ∷ []
  pub month_read : number_at text 5 2 ≡ m
  pub behind_month : substr text 7 1 ≡ b'-' ∷ []
  pub day_read : number_at text 8 2 ≡ d
  pub behind_day : substr text 10 1 ≡ b' ' ∷ []
  pub hour_read : number_at text 11 2 ≡ h
  pub behind_hour : substr text 13 1 ≡ b':' ∷ []
  pub minute_read : number_at text 14 2 ≡ mi
  pub behind_minute : substr text 16 1 ≡ b':' ∷ []
  pub second_read : number_at text 17 2 ≡ s
  pub behind_second : substr text 19 1 ≡ b':' ∷ []
  pub millisecond_read : number_at text 20 3 ≡ ms

sum : (place start : ℕ) → place + 3 + start ≡ place + suc (2 + start)
sum place start = omega arith

-- From a place on, the text goes on with `rest`.
abbrev GoesOn : (text : List ℕ) (place : ℕ) (rest : List ℕ) → Type 0
GoesOn text place rest =
    (start count : ℕ) → substr text (place + start) count ≡ substr rest start count

-- Behind a separator and a number of two digits.
past :
    (text : List ℕ) (place c : ℕ) (back : List ℕ) (n : ℕ)
    → n < 100
    → GoesOn text place (c ∷ (padded 2 (pos n) ++ back))
    → GoesOn text (place + 3) back
past text place c back n below on start count =
    ap (λ (k : ℕ). substr text k count) (sum place start)
    ∙ on (suc (2 + start)) count
    ∙ substr-behind back 2 n start count (omega (arith, below)) (omega arith)

two : (back : List ℕ) (n : ℕ) → n < 100 → number_at (padded 2 (pos n) ++ back) 0 2 ≡ n
two back n below =
    number_at-padded back 2 n (omega (arith, below)) (omega arith) (omega (arith, below))

-- The length of what starts with a number and a separator.
length-part :
    (back : List ℕ) (width n c : ℕ)
    → n < 10 ^ width
    → 0 < width
    → length (padded width (pos n) ++ c ∷ back) ≡ width + 1 + length back
length-part back width n c below positive =
    omega
      (arith, length-append (padded width (pos n)) (c ∷ back), length-padded width n below positive)

module _ (y m d h mi s ms : ℕ) (y_small : y < 10000) (m_small : m < 100) (d_small : d < 100)
    (h_small : h < 100) (mi_small : mi < 100) (s_small : s < 100) (ms_small : ms < 1000) where
  abbrev from_millisecond : List ℕ
  from_millisecond = padded 3 (pos ms) ++ []

  abbrev from_second : List ℕ
  from_second = padded 2 (pos s) ++ (b':' ∷ from_millisecond)

  abbrev from_minute : List ℕ
  from_minute = padded 2 (pos mi) ++ (b':' ∷ from_second)

  abbrev from_hour : List ℕ
  from_hour = padded 2 (pos h) ++ (b':' ∷ from_minute)

  abbrev from_day : List ℕ
  from_day = padded 2 (pos d) ++ (b' ' ∷ from_hour)

  abbrev from_month : List ℕ
  from_month = padded 2 (pos m) ++ (b'-' ∷ from_day)

  abbrev from_year : List ℕ
  from_year = padded 4 (pos y) ++ (b'-' ∷ from_month)

  -- What stands behind each number, from the separator on.
  year_end : GoesOn from_year 4 (b'-' ∷ from_month)
  year_end start count =
      substr-behind (b'-' ∷ from_month) 4 y start count (omega (arith, y_small)) (omega arith)

  month_end : GoesOn from_year 7 (b'-' ∷ from_day)
  month_end = past from_year 4 b'-' (b'-' ∷ from_day) m m_small year_end

  day_end : GoesOn from_year 10 (b' ' ∷ from_hour)
  day_end = past from_year 7 b'-' (b' ' ∷ from_hour) d d_small month_end

  hour_end : GoesOn from_year 13 (b':' ∷ from_minute)
  hour_end = past from_year 10 b' ' (b':' ∷ from_minute) h h_small day_end

  minute_end : GoesOn from_year 16 (b':' ∷ from_second)
  minute_end = past from_year 13 b':' (b':' ∷ from_second) mi mi_small hour_end

  second_end : GoesOn from_year 19 (b':' ∷ from_millisecond)
  second_end = past from_year 16 b':' (b':' ∷ from_millisecond) s s_small minute_end

  length-from_year : length from_year ≡ 23
  length-from_year = omega (
    arith,
    length-part from_month 4 y b'-' (omega (arith, y_small)) (omega arith),
    length-part from_day 2 m b'-' (omega (arith, m_small)) (omega arith),
    length-part from_hour 2 d b' ' (omega (arith, d_small)) (omega arith),
    length-part from_minute 2 h b':' (omega (arith, h_small)) (omega arith),
    length-part from_second 2 mi b':' (omega (arith, mi_small)) (omega arith),
    length-part from_millisecond 2 s b':' (omega (arith, s_small)) (omega arith),
    length-append (padded 3 (pos ms)) [],
    length-padded 3 ms (omega (arith, ms_small)) (omega arith),
  )

  from_year-IsRead : IsRead from_year y m d h mi s ms
  from_year-IsRead = record {
    whole = length-from_year;
    year_read =
        number_at-padded (b'-' ∷ from_month) 4 y (omega (arith, y_small)) (omega arith)
          (omega (arith, y_small));
    behind_year = year_end 0 1;
    month_read = ap (value_from 0) (year_end 1 2) ∙ two (b'-' ∷ from_day) m m_small;
    behind_month = month_end 0 1;
    day_read = ap (value_from 0) (month_end 1 2) ∙ two (b' ' ∷ from_hour) d d_small;
    behind_day = day_end 0 1;
    hour_read = ap (value_from 0) (day_end 1 2) ∙ two (b':' ∷ from_minute) h h_small;
    behind_hour = hour_end 0 1;
    minute_read = ap (value_from 0) (hour_end 1 2) ∙ two (b':' ∷ from_second) mi mi_small;
    behind_minute = minute_end 0 1;
    second_read = ap (value_from 0) (minute_end 1 2) ∙ two (b':' ∷ from_millisecond) s s_small;
    behind_second = second_end 0 1;
    millisecond_read =
        ap (value_from 0) (second_end 1 3)
        ∙ number_at-padded [] 3 ms (omega (arith, ms_small)) (omega arith)
            (omega (arith, ms_small));
  }

hour-small : (t : DateTime) → hour t < 100
unfolding hour
hour-small t = omega arith

minute-small : (t : DateTime) → minute t < 100
unfolding minute
minute-small t = omega arith

second-small : (t : DateTime) → second t < 100
unfolding second
second-small t = omega arith

millisecond-small : (t : DateTime) → millisecond t < 1000
unfolding millisecond
millisecond-small t = omega arith

module _ (y m d : ℕ) (v : IsDate y m d) (t : DateTime) (on : OnDate y m d t) where
  -- The text of `ToString` for a value on a Gregorian date has 23 bytes: the year, month and day of
  -- the date, separated by hyphens, a space, and the hour, minute, second and millisecond of the
  -- value, each separated by one colon, as decimal numbers of 4, 2, 2, 2, 2, 2 and 3 bytes.
  pub to_string-IsRead : IsRead (to_string t) y m d (hour t) (minute t) (second t) (millisecond t)
  unfolding to_string
  to_string-IsRead = rw (year-OnDate y m d v t on) (
      rw (month-OnDate y m d v t on) (
        rw (day-OnDate y m d v t on) (
          from_year-IsRead y m d (hour t) (minute t) (second t) (millisecond t)
            (omega (arith, v.year_to)) (omega (arith, v.month_to))
            (omega (arith, v.day_to, month_length-le (is_leap y) m)) (hour-small t) (minute-small t)
            (second-small t) (millisecond-small t))))
