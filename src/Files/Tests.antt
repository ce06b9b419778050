-- ===== src/Files/Tests.antt =====
-- The theorem about the options of enumerations at concrete values.
use nuke.Base.{◌≡◌, [], ◌∷◌}
use nuke.Base.Int.{pos}
use nuke.Files.Statics.{no_statics, asks_default, asks_recursive, asks_for, serve, serve_all}
use nuke.Files.Answers.{expected, options_of, serve_all-expected}

serve_all-expected_example :
    options_of (
      serve
        (serve_all no_statics (asks_recursive ∷ asks_for (pos 7) ∷ asks_default ∷ []))
        (asks_for (pos 0)))
    ≡ expected (asks_for (pos 0))
serve_all-expected_example =
    serve_all-expected (asks_recursive ∷ asks_for (pos 7) ∷ asks_default ∷ []) (asks_for (pos 0))
