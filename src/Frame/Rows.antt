-- ===== src/Frame/Rows.antt =====
-- The movements of src/input.c keep the cursor on a row of the buffer, whatever its column is.
use ved.Common.{◌<◌, arith, ◌-◌}
use ved.Buffer.{Buffer, line_count}
use ved.Frame.{
  Frame, clamp_frame, move_prev_line, move_next_line, move_prev_char, move_next_char,
  move_next_word, move_prev_word,
}
use ved.Frame.Bounds.{InText, next_word_rounds-InText, prev_word_from-InText}

abbrev pub OnRow : Buffer → Frame → Type 0
OnRow b f = f.row < line_count b

module _ (b : Buffer) (f : Frame) (on : OnRow b f) where
  pub move_prev_line-OnRow : OnRow b (move_prev_line b f)
  unfolding move_prev_line clamp_frame
  move_prev_line-OnRow = ground arith

  pub move_next_line-OnRow : OnRow b (move_next_line b f)
  unfolding move_next_line clamp_frame
  move_next_line-OnRow = ground arith

  pub move_prev_char-OnRow : OnRow b (move_prev_char b f)
  unfolding move_prev_char
  move_prev_char-OnRow = ground arith

  pub move_next_char-OnRow : OnRow b (move_next_char b f)
  unfolding move_next_char
  move_next_char-OnRow = ground arith

  pub move_next_word-OnRow : OnRow b (move_next_word b f)
  move_next_word-OnRow =
      unfold move_next_word in
      InText.row_in (next_word_rounds-InText (line_count b - f.row) b f.row f.col on (omega arith))

  pub move_prev_word-OnRow : OnRow b (move_prev_word b f)
  move_prev_word-OnRow =
      unfold move_prev_word in InText.row_in (prev_word_from-InText b f.row f.col on)
