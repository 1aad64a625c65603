-- ===== src/Tests/Searches.antt =====
-- Searches over the rows, and the files that a project has.
use ved.Common.{ℕ, zero, suc, ◌≢◌, ◌≤◌, ◌↔◌, refl, none, some, List, [], arith, length}
use ved.Text.{codes, bytes_eq}
use ved.Os.{Os, Entries, nil, entry, file, dir}
use ved.Buffer.{line_at}
use ved.Search.{size_max, search_forward_from, search_backward_from}
use ved.Search.First.{IsFirstFrom, search_forward_from-IsFirstFrom}
use ved.Search.Last.{IsLastBefore, search_backward_from-IsLastBefore}
use ved.Ignore.{load_gitignore, load_project}
use ved.Ignore.Found.{Listed, FoundBelow, load_project-Found}
use ved.Tests.{bare_os, doc}

abbrev query : List ℕ
query = codes "b"

query-in_use : query ≢ []
query-in_use = cc

search_forward_from-IsFirstFrom_example :
    IsFirstFrom doc query 0 1 (search_forward_from doc query 0 1)
search_forward_from-IsFirstFrom_example =
    search_forward_from-IsFirstFrom doc query 0 1 query-in_use (omega arith)

doc-short : (row : ℕ) → length (line_at doc row) ≤ size_max
doc-short zero = omega arith
doc-short (suc zero) = omega arith
doc-short (suc (suc zero)) = omega arith
doc-short (suc (suc (suc row))) = omega arith

search_backward_from-IsLastBefore_example :
    IsLastBefore doc query 1 1 (search_backward_from doc query 1 1)
search_backward_from-IsLastBefore_example =
    search_backward_from-IsLastBefore doc query 1 1 query-in_use doc-short (omega arith)

-- A directory with a `.gitignore`, a file, and a directory with a file.
abbrev entries : Entries
entries = entry (codes ".gitignore") (file (some (codes "b.c"))) (
    entry (codes "a.c") (file (some []))
      (entry (codes "d") (dir (entry (codes "b.c") (file none) nil)) nil))

abbrev project_os : Os
project_os = record bare_os {
  tree_at = λ path. dir entries;
  fnmatch = λ pattern name flag. bytes_eq pattern name;
}

load_project-Found_example :
    Listed (codes "a.c") (load_project project_os (codes "/p"))
    ↔ FoundBelow project_os (load_gitignore entries [] []) entries [] (codes "a.c")
load_project-Found_example = load_project-Found project_os (codes "/p") (codes "a.c") entries refl
