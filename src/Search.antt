-- ===== src/Search.antt =====
-- The incremental search of src/input.c on the lines of the buffer, without regard to case.
pub mod Line
pub mod Rows
pub mod First
pub mod Last
use ved.Common.{
  ℕ, zero, suc, ◌+◌, ◌-◌, Bool, true, false, ◌&&◌, ◌||◌, Option, none, some, List, [], ◌∷◌, ltb,
  leb, ◌==◌, if◌then◌else◌, length, drop,
}
use ved.Text.{tolower}
use ved.Buffer.{Buffer, line_count, line_at, line_length, clamp}
use ved.Frame.{Frame}

-- `SIZE_MAX`
abbrev pub size_max : ℕ
size_max = 0xffffffffffffffff

-- The loop over `needle`: whether it stands at the start of the bytes.
unfoldable pub matches_at : List ℕ → List ℕ → Bool
matches_at text [] = true
matches_at [] (n ∷ needle) = false
matches_at (c ∷ text) (n ∷ needle) = tolower c == tolower n && matches_at text needle

-- The loop of `line_search_forward` from `col` on, a round for each column that is left.
unfoldable pub first_match : ℕ → List ℕ → List ℕ → ℕ → Option ℕ
first_match zero line needle col = none
first_match (suc k) line needle col =
    let rest = first_match k line needle (suc col) in
    if matches_at (drop col line) needle then some col else rest

unfoldable pub line_search_forward : List ℕ → ℕ → List ℕ → Option ℕ
unfolding first_match
line_search_forward line start needle =
    if length needle == 0 || ltb (length line) (length needle)
    then none
    else if ltb (length line - length needle) start
    then none
    else first_match (suc (length line - length needle) - start) line needle start

-- The loop of `line_search_backward`, with what it has found.
unfoldable pub last_match : ℕ → List ℕ → List ℕ → ℕ → Option ℕ → Option ℕ
last_match zero line needle col found = found
last_match (suc k) line needle col found =
    last_match k line needle (suc col)
      (if matches_at (drop col line) needle then some col else found)

unfoldable pub line_search_backward : List ℕ → ℕ → List ℕ → Option ℕ
unfolding last_match
line_search_backward line end_col needle =
    if length needle == 0 || ltb (length line) (length needle)
    then none
    else last_match (suc (clamp (length line - length needle) end_col)) line needle 0 none

-- `search_forward_from`, from `row` on, a round for each row that is left.
unfoldable pub forward_rows : ℕ → Buffer → List ℕ → ℕ → ℕ → ℕ → Option Frame
forward_rows zero b query start_row start_col row = none
forward_rows (suc k) b query start_row start_col row =
    let from = if row == start_row then clamp (line_length b row) start_col else 0 in
    let rest = forward_rows k b query start_row start_col (suc row) in
    elim (line_search_forward (line_at b row) from query) [
      | some col ↦ some (record { row = row; col = col })
      | none ↦ rest
    ]

unfoldable pub search_forward_from : Buffer → List ℕ → ℕ → ℕ → Option Frame
unfolding forward_rows
search_forward_from b query start_row start_col =
    forward_rows (line_count b - start_row) b query start_row start_col start_row

-- One line of `search_backward_from`; on the row of the start the match must end before the start.
unfoldable pub backward_line : Buffer → List ℕ → ℕ → ℕ → ℕ → Option ℕ
backward_line b query start_row start_col row =
    let from = clamp (line_length b row) start_col in
    if row == start_row
    then (if ltb from (length query)
        then none
        else line_search_backward (line_at b row) (from - length query) query)
    else line_search_backward (line_at b row) size_max query

unfoldable pub backward_rows : Buffer → List ℕ → ℕ → ℕ → ℕ → Option Frame
unfolding backward_line
backward_rows b query start_row start_col zero =
    elim (backward_line b query start_row start_col 0) [
      | some col ↦ some (record { row = 0; col = col })
      | none ↦ none
    ]
backward_rows b query start_row start_col (suc row) =
    let rest = backward_rows b query start_row start_col row in
    elim (backward_line b query start_row start_col (suc row)) [
      | some col ↦ some (record { row = suc row; col = col })
      | none ↦ rest
    ]

unfoldable pub search_backward_from : Buffer → List ℕ → ℕ → ℕ → Option Frame
unfolding backward_rows
search_backward_from b query start_row start_col =
    backward_rows b query start_row start_col start_row
