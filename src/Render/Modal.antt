-- ===== src/Render/Modal.antt =====
-- The boxes of the finder and of the prompt in src/render.c. The `int` values of a geometry that the
-- source clamps to 1 below are natural numbers: a difference below 0 counts as 0 and is clamped alike.
use ved.Common.{
  ℕ, zero, suc, ◌+◌, ◌-◌, ◌/◌, Bool, false, List, [], ◌∷◌, ◌++◌, ltb, leb, ◌==◌, ◌&&◌,
  if◌then◌else◌, length, take, get_or,
}
use ved.Text.{codes}
use ved.Finder.{modal_width, list_rows}
use ved.Editor.{Editor, Finder}
use ved.Output.{
  AppendBuf, ab_append, ab_append_repeat, ab_append_padded, ab_move_cursor, esc, reset, inverse,
}

-- The box-drawing character U+2500 + n, for n below 64, in UTF-8.
abbrev pub box : ℕ → List ℕ
box n = 0xe2 ∷ 0x94 ∷ (0x80 + n) ∷ []

abbrev pub white : List ℕ
white = esc (codes "[97m")

unfoldable pub render_modal_border : AppendBuf → ℕ → ℕ → ℕ → ℕ → ℕ → ℕ → AppendBuf
render_modal_border ab row col width left fill right =
    let opened = ab_append (ab_append (ab_move_cursor ab row col) white) (box left) in
    ab_append (ab_append (ab_append_repeat opened (box fill) width) (box right)) reset

-- The side of a box, "\x1b[97m┃\x1b[m".
abbrev pub side : List ℕ
side = white ++ box 3 ++ reset

unfoldable pub render_modal_line : AppendBuf → ℕ → ℕ → ℕ → List ℕ → Bool → AppendBuf
render_modal_line ab row col width text highlighted =
    let opened = ab_append (ab_move_cursor ab row col) side in
    let marked = if highlighted then ab_append opened inverse else opened in
    let padded = ab_append_padded marked text width in
    ab_append (if highlighted then ab_append padded reset else padded) side

-- A place on the screen: the row and the column of its corner, and the width inside.
pub record Geometry : Type 0 where
  pub row : ℕ
  pub col : ℕ
  pub width : ℕ

-- `if (value < 1) value = 1;`
abbrev pub at_least_one : ℕ → ℕ
at_least_one n = if ltb n 1 then 1 else n

-- `(ed->screen_cols - total_cols) / 2 + 1`, clamped
unfoldable pub centred : ℕ → ℕ → ℕ
centred cols total = at_least_one ((cols - total) / 2 + 1)

unfoldable pub finder_modal_geometry : Editor → ℕ → Geometry
unfolding centred
finder_modal_geometry ed rows =
    let width = modal_width ed in
    let total_rows = list_rows ed + 4 in
    let row = if ltb rows (2 + total_rows - 1) then rows + 1 - total_rows else 2 in
    record { row = at_least_one row; col = centred ed.screen_cols (width + 2); width = width }

unfoldable pub prompt_width : ℕ → ℕ
prompt_width cols =
    let wide = if ltb 70 (cols - 6) then 70 else cols - 6 in
    let narrow = if ltb wide 24 then cols - 2 else wide in if ltb narrow 12 then 12 else narrow

unfoldable pub prompt_row : ℕ → ℕ
prompt_row rows =
    let middle = at_least_one (rows / 2) in
    at_least_one (if ltb rows (middle + 2) then rows - 2 else middle)

unfoldable pub prompt_modal_geometry : Editor → ℕ → Geometry
unfolding centred prompt_width prompt_row
prompt_modal_geometry ed rows =
    let width = prompt_width ed.screen_cols in
    record { row = prompt_row rows; col = centred ed.screen_cols (width + 2); width = width }

-- The text of a row of the list, and whether it is the selected one.
unfoldable pub list_row : Finder → ℕ → List ℕ × Bool
list_row fd i =
    let at = fd.scroll + i in
    if length fd.matches == 0 && i == 0
    then (codes " No matches", false)
    else if leb (length fd.matches) at
    then ([], false)
    else (get_or fd.files (get_or fd.matches at 0) [], at == fd.selection)

-- The loop over the rows of the list from `i` on, a round for each row that is left.
unfoldable pub render_list : ℕ → AppendBuf → Finder → Geometry → ℕ → AppendBuf
unfolding list_row
render_list zero ab fd g i = ab
render_list (suc k) ab fd g i =
    let (text, selected) = list_row fd i in
    render_list k (render_modal_line ab (g.row + 3 + i) g.col g.width text selected) fd g (suc i)

unfoldable pub render_finder_modal : Editor → AppendBuf → ℕ → AppendBuf
unfolding render_list
render_finder_modal ed ab rows =
    let g = finder_modal_geometry ed rows in
    let header = take 511 (codes " Go to file: " ++ ed.finder.query.bytes) in
    let top = render_modal_border ab g.row g.col g.width 0x0f 0x01 0x13 in
    let titled = render_modal_line top (g.row + 1) g.col g.width header false in
    let ruled = render_modal_border titled (g.row + 2) g.col g.width 0x23 0x01 0x2b in
    let listed = render_list (list_rows ed) ruled ed.finder g 0 in
    if ed.finder.active
    then render_modal_border listed (g.row + 3 + list_rows ed) g.col g.width 0x17 0x01 0x1b
    else ab

-- The text before the prompt's line.
abbrev pub prompt_prefix : Bool → List ℕ
prompt_prefix save_as = if save_as then codes " Save as: " else codes " "

unfoldable pub render_prompt_modal : Editor → AppendBuf → ℕ → AppendBuf
render_prompt_modal ed ab rows =
    let g = prompt_modal_geometry ed rows in
    let line = take 511 (prompt_prefix ed.prompt_save_as ++ ed.prompt.bytes) in
    let top = render_modal_border ab g.row g.col g.width 0x0f 0x01 0x13 in
    let titled = render_modal_line top (g.row + 1) g.col g.width line false in
    if ed.prompt_active
    then render_modal_border titled (g.row + 2) g.col g.width 0x17 0x01 0x1b
    else ab
