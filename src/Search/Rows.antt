-- ===== src/Search/Rows.antt =====
-- The searches of src/input.c over the rows find a row of the buffer.
use ved.Common.{ℕ, zero, suc, ◌+◌, ◌-◌, ◌≤◌, ◌<◌, Option, none, some, List, arith}
use ved.Buffer.{Buffer, line_count}
use ved.Frame.{Frame}
use ved.Search.{forward_rows, search_forward_from, backward_rows, search_backward_from}

-- What was found, if anything, stands on a row of the buffer.
abbrev pub Found : Buffer → Option Frame → Type 0
Found b none = Unit
Found b (some f) = f.row < line_count b

module _ (b : Buffer) (query : List ℕ) (start_row start_col : ℕ) where
  forward_rows-Found :
      (k row : ℕ)
      → row + k ≤ line_count b
      → Found b (forward_rows k b query start_row start_col row)
  unfolding forward_rows
  forward_rows-Found zero row h = tt
  forward_rows-Found (suc k) row h = ground (arith, forward_rows-Found k (suc row))

  pub search_forward_from-Found :
      start_row < line_count b → Found b (search_forward_from b query start_row start_col)
  search_forward_from-Found h =
      unfold search_forward_from in
      forward_rows-Found (line_count b - start_row) start_row (omega arith)

  backward_rows-Found :
      (row : ℕ) → row < line_count b → Found b (backward_rows b query start_row start_col row)
  unfolding backward_rows
  backward_rows-Found zero h = ground arith
  backward_rows-Found (suc row) h = ground (arith, backward_rows-Found row)

  pub search_backward_from-Found :
      start_row < line_count b → Found b (search_backward_from b query start_row start_col)
  search_backward_from-Found h = unfold search_backward_from in backward_rows-Found start_row h
