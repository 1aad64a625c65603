-- ===== src/Render.antt =====
-- src/render.c: the screen that `editor_refresh_screen` draws.
pub mod Scroll
pub mod Highlight
pub mod Line
pub mod Visible
pub mod Buffered
pub mod Offsets
pub mod Selection
pub mod Modal
pub mod Bar
pub mod Paint
pub mod Runs
pub mod Boxes
pub mod Cursor
use ved.Common.{
  ℕ, zero, suc, ◌+◌, ◌-◌, Bool, true, false, ◌&&◌, Option, none, some, List, [], ◌∷◌, ◌++◌, ltb,
  leb, ◌==◌, if◌then◌else◌, length, take,
}
use ved.Common.Int.{ℤ, pos, negsuc, sub_ℕ}
use ved.Text.{codes, decimal}
use ved.Os.{Os}
use ved.Utf8.{byte_to_vis_col}
use ved.Buffer.{Buffer, BufferMode, c_mode, makefile_mode, line_count, line_at}
use ved.Frame.{Frame}
use ved.Editor.{Editor, Finder}
use ved.Output.{
  AppendBuf, ab_init, ab_append, ab_append_repeat, ab_append_char, esc, reset, inverse,
}
use ved.Render.Scroll.{text_rows, editor_scroll}
use ved.Render.Highlight.{HighlightSpan, refresh_tree, visible_spans}
use ved.Render.Line.{draw_line}
use ved.Render.Modal.{
  Geometry, finder_modal_geometry, prompt_modal_geometry, prompt_prefix, render_finder_modal,
  render_prompt_modal,
}

unfoldable pub mode_name : BufferMode → List ℕ
mode_name makefile_mode = codes "Makefile"
mode_name c_mode = codes "C"

-- The spans of the rows of the window: `offsets` and `last_row` are taken where there is a row.
unfoldable pub screen_spans : Os → Editor → List HighlightSpan
screen_spans os ed =
    let rows = text_rows ed in
    let count = line_count ed.buffer in
    let last = ed.row_offset + rows - 1 in
    let last_row = if leb count last then count - 1 else last in
    if ltb 0 rows && ltb 0 count then visible_spans os ed.buffer ed.row_offset last_row else []

-- The loop over the rows of the window from `y` on, a round for each row that is left.
unfoldable pub draw_rows : ℕ → AppendBuf → Editor → List HighlightSpan → ℕ → AppendBuf
draw_rows zero ab ed spans y = ab
draw_rows (suc k) ab ed spans y =
    let row = ed.row_offset + y in
    let line =
      if leb (line_count ed.buffer) row
      then ab_append_char ab b'~'
      else draw_line ed spans ab row in
    let cleared = ab_append line (esc (codes "[K")) in
    draw_rows k (if ltb y (text_rows ed - 1) then ab_append cleared (13 ∷ 10 ∷ []) else cleared) ed
      spans (suc y)

-- The message at the end of the left part of the status bar.
unfoldable pub status_context : Editor → List ℕ
status_context ed =
    if ltb 0 (length ed.status_msg)
    then ed.status_msg
    else if ed.pending_ctrl_x
    then codes "C-x"
    else []

unfoldable pub status_left : Editor → List ℕ
unfolding status_context
status_left ed =
    let name : List ℕ = elim ed.buffer.file_path [ some path ↦ path | none ↦ codes "[No Name]" ] in
    let dirty = if ed.dirty then b'*' ∷ [] else [] in
    let place = (32 ∷ name) ++ dirty ++ codes "  L" ++ decimal (ed.frame.row + 1) in
    take 511 (
      if ltb 0 (length (status_context ed))
      then place ++ codes "  " ++ status_context ed
      else place)

unfoldable pub status_right : Editor → List ℕ
unfolding mode_name
status_right ed = (32 ∷ mode_name ed.buffer.mode) ++ 32 ∷ []

-- The bar between its two escape sequences.
unfoldable pub draw_bar : AppendBuf → List ℕ → List ℕ → ℕ → AppendBuf
draw_bar ab left right cols =
    let right_len = if ltb cols (length right) then cols else length right in
    let left_cols = cols - right_len in
    let left_len = if ltb left_cols (length left) then left_cols else length left in
    let written = ab_append ab (take left_len left) in
    ab_append (ab_append_repeat written (32 ∷ []) (left_cols - left_len)) (take right_len right)

unfoldable pub draw_status : AppendBuf → Editor → AppendBuf
unfolding draw_bar status_left status_right
draw_status ab ed =
    let opened = ab_append (ab_append ab (13 ∷ 10 ∷ [])) inverse in
    let bar = draw_bar opened (status_left ed) (status_right ed) ed.screen_cols in
    ab_append (ab_append bar reset) (esc (codes "[K"))

-- The cursor in a box, behind a prefix and a column of its line, and not past its side.
unfoldable pub box_cursor : Geometry → ℕ → ℕ → ℤ × ℤ
box_cursor g prefix col =
    let c = prefix + col + 1 in
    (pos (g.row + 1), pos (g.col + (if ltb g.width c then g.width else c)))

-- `cursor_row` and `cursor_col`.
unfoldable pub cursor_at : Editor → ℤ × ℤ
unfolding box_cursor
cursor_at ed =
    let rows = text_rows ed in
    let f = ed.frame in
    let line = line_at ed.buffer f.row in
    let row = sub_ℕ (f.row + 1) ed.row_offset in
    if ed.finder.active
    then box_cursor (finder_modal_geometry ed rows) (length (codes " Go to file: "))
        ed.finder.query.col
    else if ed.prompt_active
    then box_cursor (prompt_modal_geometry ed rows) (length (prompt_prefix ed.prompt_save_as))
        ed.prompt.col
    else if ltb f.row (line_count ed.buffer)
    then (row, sub_ℕ (byte_to_vis_col line f.col + 1) (byte_to_vis_col line ed.col_offset))
    else (row, pos 1)

-- `%d`
unfoldable pub decimal_int : ℤ → List ℕ
decimal_int (pos n) = decimal n
decimal_int (negsuc n) = b'-' ∷ decimal (suc n)

-- The sequence that puts the terminal's cursor there.
unfoldable pub draw_cursor : AppendBuf → ℤ → ℤ → AppendBuf
unfolding decimal_int
draw_cursor ab row col =
    ab_append ab (take 63 (esc (b'[' ∷ decimal_int row ++ b';' ∷ decimal_int col ++ b'H' ∷ [])))

-- What `editor_refresh_screen` writes for an editor that has scrolled and parsed.
unfoldable pub draw_screen : Os → Editor → AppendBuf
unfolding draw_rows draw_status screen_spans cursor_at draw_cursor
draw_screen os ed =
    let rows = text_rows ed in
    let start = ab_append (ab_append ab_init (esc (codes "[?25l"))) (esc (codes "[H")) in
    let drawn = draw_status (draw_rows rows start ed (screen_spans os ed) 0) ed in
    let boxed = render_finder_modal ed (render_prompt_modal ed drawn rows) rows in
    let (row, col) = cursor_at ed in ab_append (draw_cursor boxed row col) (esc (codes "[?25h"))

-- The changes that `editor_refresh_screen` makes to the editor.
unfoldable pub refreshed : Os → Editor → Editor
unfolding refresh_tree editor_scroll
refreshed os ed =
    let scrolled = editor_scroll ed in record scrolled { buffer = refresh_tree os scrolled.buffer }

-- `editor_refresh_screen`: the editor after, and the bytes for `write_all`.
unfoldable pub editor_refresh_screen : Os → Editor → Editor × List ℕ
unfolding refreshed draw_screen
editor_refresh_screen os ed =
    let after = refreshed os ed in (after, AppendBuf.bytes (draw_screen os after))
