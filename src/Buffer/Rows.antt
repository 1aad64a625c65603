-- ===== src/Buffer/Rows.antt =====
-- The array of lines of src/buffer.c: a line is put in or lines are taken out by `memmove`.
use ved.Common.{ℕ, List, ◌∷◌, ◌++◌, take, drop}

-- `memmove(&lines[at + 1], &lines[at], …); lines[at] = line; line_count++;`
abbrev pub insert_row : List (List ℕ) → ℕ → List ℕ → List (List ℕ)
insert_row rows at line = take at rows ++ line ∷ drop at rows

-- `memmove(&lines[from], &lines[to], …); line_count -= to - from;`
abbrev pub remove_rows : List (List ℕ) → ℕ → ℕ → List (List ℕ)
remove_rows rows from to = take from rows ++ drop to rows
