-- ===== src/Render/Scroll.antt =====
-- `editor_scroll` of src/render.c: the offsets of the window follow the cursor.
use ved.Common.{ℕ, ◌+◌, ◌-◌, ◌&&◌, List, ltb, leb, if◌then◌else◌}
use ved.Utf8.{byte_to_vis_col, vis_to_byte_col, clamp_col}
use ved.Buffer.{line_count, line_at, line_length}
use ved.Editor.{Editor}

-- The rows above the status bar.
abbrev pub text_rows : Editor → ℕ
text_rows ed = if ltb 1 ed.screen_rows then ed.screen_rows - 1 else 0

-- The three tests on `row_offset`, one after the other.
unfoldable pub above_cursor : ℕ → ℕ → ℕ
above_cursor row offset = if ltb row offset then row else offset

unfoldable pub below_cursor : ℕ → ℕ → ℕ → ℕ
below_cursor rows row offset =
    if ltb 0 rows && leb (offset + rows) row then row - rows + 1 else offset

unfoldable pub before_end : ℕ → ℕ → ℕ → ℕ
before_end rows count offset =
    if ltb count (offset + rows) then (if ltb rows count then count - rows else 0) else offset

unfoldable pub scroll_rows : ℕ → ℕ → ℕ → ℕ → ℕ
unfolding above_cursor below_cursor before_end
scroll_rows rows count row offset =
    before_end rows count (below_cursor rows row (above_cursor row offset))

-- The new `col_offset` for the line of the cursor.
unfoldable pub scroll_cols : ℕ → List ℕ → ℕ → ℕ → ℕ → ℕ
scroll_cols cols line len col offset =
    let frame_vis = byte_to_vis_col line col in
    let offset_vis = byte_to_vis_col line offset in
    let left = if ltb frame_vis offset_vis then vis_to_byte_col line len frame_vis else offset in
    let right =
      if leb (offset_vis + cols) frame_vis
      then vis_to_byte_col line len (frame_vis - cols + 1)
      else left in
    clamp_col line len right

unfoldable pub editor_scroll : Editor → Editor
unfolding scroll_rows scroll_cols
editor_scroll ed =
    let row = ed.frame.row in
    record ed {
      row_offset = scroll_rows (text_rows ed) (line_count ed.buffer) row ed.row_offset;
      col_offset =
          if ltb row (line_count ed.buffer)
          then scroll_cols ed.screen_cols (line_at ed.buffer row) (line_length ed.buffer row)
              ed.frame.col ed.col_offset
          else ed.col_offset;
    }
