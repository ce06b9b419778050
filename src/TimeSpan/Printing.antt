-- ===== src/TimeSpan/Printing.antt =====
-- ToString of System/TimeSpan.cpp: "%d:%d:%d,%d". The buffer has room for any four numbers.
use nuke.Base.{ℕ, List, ◌∷◌, ◌++◌}
use nuke.Base.Int.{ℤ}
use nuke.Base.Text.{decimal}
use nuke.Base.Floating.{Floating}
use nuke.TimeSpan.{TimeSpan}
use nuke.TimeSpan.Floating.{total_milliseconds, to_string_parts}

abbrev printed : record { hour : ℤ; minute : ℤ; second : ℤ; ms : ℤ } → List ℕ
printed parts =
    decimal parts.hour
    ++ (b':'
        ∷ (decimal parts.minute ++ (b':' ∷ (decimal parts.second ++ (b',' ∷ decimal parts.ms)))))

unfoldable pub to_string : (F : Floating) → TimeSpan → List ℕ
to_string F t = printed (to_string_parts (F.truncate (total_milliseconds F t)))
