-- ===== src/Frame/Bounds.antt =====
-- Every movement keeps the cursor in the text: on a row of the buffer, at most at the line's end.
use ved.Common.{ℕ, zero, suc, ◌-◌, ◌≤◌, ◌<◌, List, arith}
use ved.Buffer.{Buffer, line_count, line_at, line_length}
use ved.Utf8.{clamp_col}
use ved.Utf8.Boundary.{clamp_col-le, next_boundary-le, prev_boundary-le}
use ved.Scan.{is_word_char, not_word, scan_forward, scan_back}
use ved.Scan.Bounds.{scan_forward_bounds, scan_back-le}
use ved.Frame.{
  Frame, clamp_frame, move_prev_line, move_next_line, move_prev_char, move_next_char,
  move_line_start, move_line_end, next_word_end, next_word_rounds, move_next_word, prev_word_start,
  prev_word_from, move_prev_word,
}

pub record InText (b : Buffer) (f : Frame) : Type 0 where
  pub row_in : f.row < line_count b
  pub col_in : f.col ≤ line_length b f.row

clamp_frame-InText : (b : Buffer) (f : Frame) → f.row < line_count b → InText b (clamp_frame b f)
unfolding clamp_frame
clamp_frame-InText b f h = record {
  row_in = h;
  col_in = clamp_col-le (line_at b f.row) (line_length b f.row) f.col;
}

move_prev_line-InText : (b : Buffer) (f : Frame) → InText b f → InText b (move_prev_line b f)
unfolding move_prev_line
move_prev_line-InText b f v = go f.row f.col v.row_in v.col_in
  where
    go :
        (row col : ℕ)
        → row < line_count b
        → col ≤ line_length b row
        → InText b (move_prev_line b (record { row = row; col = col }))
    go zero col h k = record { row_in = h; col_in = k }
    go (suc r) col h k = clamp_frame-InText b (record { row = r; col = col }) (omega arith)

move_next_line-InText : (b : Buffer) (f : Frame) → InText b f → InText b (move_next_line b f)
unfolding move_next_line
move_next_line-InText b f v = ground (arith, clamp_frame-InText b (record f { row = suc f.row }))

move_prev_char-InText : (b : Buffer) (f : Frame) → InText b f → InText b (move_prev_char b f)
unfolding move_prev_char
move_prev_char-InText b f v = go f.row f.col v.row_in v.col_in
  where
    go :
        (row col : ℕ)
        → row < line_count b
        → col ≤ line_length b row
        → InText b (move_prev_char b (record { row = row; col = col }))
    go zero zero h k = record { row_in = h; col_in = k }
    go (suc r) zero h k = record { row_in = omega arith; col_in = omega arith }
    go row (suc c) h k = ground (arith, prev_boundary-le (line_at b row) (suc c))

move_next_char-InText : (b : Buffer) (f : Frame) → InText b f → InText b (move_next_char b f)
unfolding move_next_char
move_next_char-InText b f v =
    ground (arith, next_boundary-le (line_at b f.row) (line_length b f.row) f.col)

move_line_start-InText : (b : Buffer) (f : Frame) → InText b f → InText b (move_line_start f)
unfolding move_line_start
move_line_start-InText b f v = record { row_in = v.row_in; col_in = omega arith }

move_line_end-InText : (b : Buffer) (f : Frame) → InText b f → InText b (move_line_end b f)
unfolding move_line_end
move_line_end-InText b f v = record { row_in = v.row_in; col_in = omega arith }

pub next_word_end_bounds :
    (line : List ℕ) (len col : ℕ)
    → col ≤ len
    → (col ≤ next_word_end line len col) × (next_word_end line len col ≤ len)
unfolding next_word_end
next_word_end_bounds line len col h =
    let first = scan_forward_bounds is_word_char line len col h in
    omega (
      arith,
      scan_forward_bounds not_word line len (scan_forward is_word_char line len col) first.1,
    )

pub next_word_rounds-InText :
    (k : ℕ) (b : Buffer) (row col : ℕ)
    → row < line_count b
    → line_count b - row ≤ k
    → InText b (next_word_rounds k b row col)
unfolding next_word_rounds
next_word_rounds-InText zero b row col h p = absurd (omega arith)
next_word_rounds-InText (suc k) b row col h p = ground (
  arith,
  clamp_col-le (line_at b row) (line_length b row) col,
  next_word_end_bounds (line_at b row) (line_length b row)
      (clamp_col (line_at b row) (line_length b row) col),
  next_word_rounds-InText k b (suc row) 0,
)

move_next_word-InText : (b : Buffer) (f : Frame) → InText b f → InText b (move_next_word b f)
move_next_word-InText b f v =
    unfold move_next_word in
    next_word_rounds-InText (line_count b - f.row) b f.row f.col v.row_in (omega arith)

prev_word_start-le : (line : List ℕ) (col : ℕ) → prev_word_start line col ≤ col
unfolding prev_word_start
prev_word_start-le line col = omega (
  arith,
  scan_back-le is_word_char line col,
  scan_back-le not_word line (scan_back is_word_char line col),
)

pub prev_word_from-InText :
    (b : Buffer) (row col : ℕ) → row < line_count b → InText b (prev_word_from b row col)
unfolding prev_word_from
prev_word_from-InText b zero col h = ground (
  arith,
  clamp_col-le (line_at b 0) (line_length b 0) col,
  prev_word_start-le (line_at b 0) (clamp_col (line_at b 0) (line_length b 0) col),
)
prev_word_from-InText b (suc row) col h = ground (
  arith,
  clamp_col-le (line_at b (suc row)) (line_length b (suc row)) col,
  prev_word_start-le (line_at b (suc row))
      (clamp_col (line_at b (suc row)) (line_length b (suc row)) col),
  prev_word_from-InText b row (line_length b row),
)

move_prev_word-InText : (b : Buffer) (f : Frame) → InText b f → InText b (move_prev_word b f)
move_prev_word-InText b f v = unfold move_prev_word in prev_word_from-InText b f.row f.col v.row_in

-- Every movement of the cursor, by lines, characters and words and to the ends of the line, keeps
-- it in the text: on a line of the buffer and not past that line's end.
movements-InText :
    (b : Buffer) (f : Frame)
    → InText b f
    → InText b (move_prev_line b f)
      × InText b (move_next_line b f)
      × InText b (move_prev_char b f)
      × InText b (move_next_char b f)
      × InText b (move_line_start f)
      × InText b (move_line_end b f)
      × InText b (move_next_word b f)
      × InText b (move_prev_word b f)
movements-InText b f v = (
  move_prev_line-InText b f v,
  move_next_line-InText b f v,
  move_prev_char-InText b f v,
  move_next_char-InText b f v,
  move_line_start-InText b f v,
  move_line_end-InText b f v,
  move_next_word-InText b f v,
  move_prev_word-InText b f v,
)
