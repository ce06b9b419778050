-- ===== src/Stopwatch/Tests.antt =====
-- A run of a stopwatch, and the theorem about it.
use nuke.Base.{◌≡◌, arith, List, [], ◌∷◌}
use nuke.Base.Int.{pos}
use nuke.Stopwatch.{new_stopwatch, get_raw_elapsed_ticks, Call, starts, stops, perform_all}
use nuke.Stopwatch.Elapsing.{get_raw_elapsed_ticks_lem}

abbrev calls : List Call
calls = starts 10 ∷ starts 15 ∷ stops 30 ∷ stops 40 ∷ starts 100 ∷ []

get_raw_elapsed_ticks_lem_example :
    get_raw_elapsed_ticks (perform_all new_stopwatch calls) (pos 105) ≡ pos 25
get_raw_elapsed_ticks_lem_example = get_raw_elapsed_ticks_lem calls 105 (ground arith) (omega arith)
