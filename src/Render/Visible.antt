-- ===== src/Render/Visible.antt =====
-- Where `editor_scroll` of src/render.c leaves the window.
use ved.Common.{max, ◌+◌, ◌≤◌, ◌<◌, arith}
use ved.Buffer.{line_count}
use ved.Editor.{Editor}
use ved.Render.Scroll.{text_rows, scroll_rows, editor_scroll}

-- With a window of at least one row above the status bar and the cursor on a line of the buffer,
-- the cursor's row is in the window after `editor_scroll`, wherever the window stood before; and the window shows no rows
-- below the end of a buffer that fills it.
pub editor_scroll-shows :
    (ed : Editor)
    → 0 < text_rows ed
    → ed.frame.row < line_count ed.buffer
    → let offset = (editor_scroll ed).row_offset in
      (offset ≤ ed.frame.row)
      × (ed.frame.row < offset + text_rows ed)
      × (offset + text_rows ed ≤ max (line_count ed.buffer) (text_rows ed))
unfolding editor_scroll scroll_rows
editor_scroll-shows ed r h = ground arith
