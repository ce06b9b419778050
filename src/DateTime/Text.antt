-- ===== src/DateTime/Text.antt =====
-- ToString of System/DateTime.cpp: "%04d-%02d-%02d %02d:%02d:%02d:%03d". The comments beside it
-- say "yyyy-MM-dd HH:mm::ss".
use nuke.Base.{ℕ, List, [], ◌∷◌, ◌++◌}
use nuke.Base.Int.{pos}
use nuke.Base.Text.{padded}
use nuke.DateTime.Value.{DateTime}
use nuke.DateTime.Fields.{year, month, day, hour, minute, second, millisecond}

unfoldable pub to_string : DateTime → List ℕ
to_string t =
    padded 4 (year t)
    ++ (b'-'
        ∷ (padded 2 (month t)
            ++ (b'-'
                ∷ (padded 2 (day t)
                    ++ (b' '
                        ∷ (padded 2 (pos (hour t))
                            ++ (b':'
                                ∷ (padded 2 (pos (minute t))
                                    ++ (b':'
                                        ∷ (padded 2 (pos (second t))
                                            ++ (b':'
                                                ∷ (padded 3 (pos (millisecond t)) ++ []))))))))))))
