-- ===== src/Frame.antt =====
-- The frame of src/input.c: the position of the cursor in the buffer, and its movements.
pub mod Bounds
pub mod Chars
pub mod Rows
use Prim.Native.Nat.{Ordering}
use ved.Common.{ℕ, zero, suc, ◌+◌, ◌-◌, Bool, List, ◌||◌, leb, ltb, ◌==◌, if◌then◌else◌}
use ved.Buffer.{Buffer, line_count, line_at, line_length}
use ved.Utf8.{next_boundary, prev_boundary, clamp_col}
use ved.Scan.{is_word_char, not_word, scan_forward, scan_back}

-- `Frame`; its buffer is an argument of the functions.
pub record Frame : Type 0 where
  pub row : ℕ
  pub col : ℕ

-- `pos_compare` of src/editor.h: -1, 0 and 1 are `lt`, `eq` and `gt`.
unfoldable pub pos_compare : ℕ → ℕ → ℕ → ℕ → Ordering
pos_compare row_a col_a row_b col_b =
    if ltb row_a row_b
    then Ordering.lt
    else if ltb row_b row_a
    then Ordering.gt
    else if ltb col_a col_b
    then Ordering.lt
    else if ltb col_b col_a
    then Ordering.gt
    else Ordering.eq

unfoldable pub clamp_frame : Buffer → Frame → Frame
clamp_frame b f = record f { col = clamp_col (line_at b f.row) (line_length b f.row) f.col }

unfoldable pub move_prev_line : Buffer → Frame → Frame
move_prev_line b f = elim f.row [ zero ↦ f | suc r ↦ clamp_frame b (record f { row = r }) ]

unfoldable pub move_next_line : Buffer → Frame → Frame
move_next_line b f =
    if leb (line_count b) (suc f.row) then f else clamp_frame b (record f { row = suc f.row })

-- `frame_move_prev_char`, which reads the cursor's line from this memory.
unfoldable pub move_prev_char_in : List ℕ → Buffer → Frame → Frame
move_prev_char_in memory b f =
    if ltb 0 f.col
    then record f { col = prev_boundary memory f.col }
    else elim f.row [ zero ↦ f | suc r ↦ record { row = r; col = line_length b r } ]

unfoldable pub move_prev_char : Buffer → Frame → Frame
unfolding move_prev_char_in
move_prev_char b f = move_prev_char_in (line_at b f.row) b f

unfoldable pub move_next_char : Buffer → Frame → Frame
move_next_char b f =
    let len = line_length b f.row in
    if ltb f.col len
    then record f { col = next_boundary (line_at b f.row) len f.col }
    else (if leb (line_count b) (suc f.row) then f else record { row = suc f.row; col = 0 })

unfoldable pub move_line_start : Frame → Frame
move_line_start f = record f { col = 0 }

unfoldable pub move_line_end : Buffer → Frame → Frame
move_line_end b f = record f { col = line_length b f.row }

-- The two inner loops of `frame_move_next_word`.
unfoldable pub next_word_end : List ℕ → ℕ → ℕ → ℕ
next_word_end line len col = scan_forward not_word line len (scan_forward is_word_char line len col)

-- The outer loop of `frame_move_next_word`, a round for each row that is left.
unfoldable pub next_word_rounds : ℕ → Buffer → ℕ → ℕ → Frame
next_word_rounds zero b row col = record { row = row; col = col }
next_word_rounds (suc k) b row col =
    let len = line_length b row in
    let c = next_word_end (line_at b row) len (clamp_col (line_at b row) len col) in
    let rest = next_word_rounds k b (suc row) 0 in
    if ltb c len || leb (line_count b) (suc row) then record { row = row; col = c } else rest

unfoldable pub move_next_word : Buffer → Frame → Frame
unfolding next_word_rounds
move_next_word b f = next_word_rounds (line_count b - f.row) b f.row f.col

-- The two inner loops of `frame_move_prev_word`.
unfoldable pub prev_word_start : List ℕ → ℕ → ℕ
prev_word_start line col = scan_back not_word line (scan_back is_word_char line col)

-- The outer loop of `frame_move_prev_word`, which goes up a row while the column is 0.
unfoldable pub prev_word_from : Buffer → ℕ → ℕ → Frame
prev_word_from b zero col = if leb (line_count b) 0 then record { row = 0; col = col } else record {
  row = 0;
  col = prev_word_start (line_at b 0) (clamp_col (line_at b 0) (line_length b 0) col);
}
prev_word_from b (suc row) col =
    let c = clamp_col (line_at b (suc row)) (line_length b (suc row)) col in
    let above = prev_word_from b row (line_length b row) in
    if leb (line_count b) (suc row)
    then record { row = suc row; col = col }
    else if c == 0
    then above
    else record { row = suc row; col = prev_word_start (line_at b (suc row)) c }

unfoldable pub move_prev_word : Buffer → Frame → Frame
unfolding prev_word_from
move_prev_word b f = prev_word_from b f.row f.col
