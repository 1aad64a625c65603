-- ===== src/Tests/Files.antt =====
-- The matches of the finder.
use ved.Common.{◌≢◌, ◌↔◌, none}
use ved.Text.{codes}
use ved.Fuzzy.{fuzzy_from}
use ved.Fuzzy.Score.{IsSubsequence, fuzzy_from-IsSubsequence}

fuzzy_from-IsSubsequence_example :
    (fuzzy_from (codes "fc") (codes "Finder.c") none 0 0 ≢ none)
    ↔ IsSubsequence (codes "fc") (codes "Finder.c")
fuzzy_from-IsSubsequence_example = fuzzy_from-IsSubsequence (codes "fc") (codes "Finder.c")
