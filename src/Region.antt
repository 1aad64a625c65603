-- ===== src/Region.antt =====
-- The region of src/input.c between the mark and the cursor, and the kill and yank commands.
pub mod Words
pub mod Killed
pub mod Copy
pub mod Yank
pub mod Restore
pub mod Clean
use Prim.Native.Nat.{Ordering}
use ved.Common.{
  ℕ, zero, suc, ◌+◌, ◌-◌, Bool, true, false, ◌&&◌, ◌||◌, not, Option, none, some, List, [], ◌∷◌,
  ◌++◌, ltb, leb, ◌==◌, if◌then◌else◌, length, take, drop,
}
use ved.Utf8.{clamp_col}
use ved.Scan.{not_word, not_space, scan_forward, scan_back}
use ved.Buffer.{
  Buffer, line_count, line_at, line_length, clamp, insert_char, insert_newline, delete_range,
  delete_region, join_rows,
}
use ved.Frame.{Frame, pos_compare}
use ved.KillRing.{KillRing, kill_set, current}
use ved.Base64.{osc52_message}
use ved.Editor.{Editor, touch}

-- Two positions in order: `none` where they are one position.
unfoldable pub order_positions : Frame → Frame → Option (Frame × Frame)
order_positions a b = elim (pos_compare a.row a.col b.row b.col) [
  | Ordering.gt ↦ some (b, a)
  | Ordering.lt ↦ some (a, b)
  | Ordering.eq ↦ none
]

-- `editor_get_region`
unfoldable pub get_region : Editor → Option (Frame × Frame)
unfolding order_positions
get_region ed = if ed.mark_active then order_positions ed.mark ed.frame else none

-- `min(col, len)` as the source writes it.
abbrev pub cut : ℕ → ℕ → ℕ
cut col len = if ltb col len then col else len

-- What a row adds to the text of a region.
unfoldable pub row_piece : Buffer → Frame → Frame → ℕ → List ℕ
row_piece b start end row =
    let len = line_length b row in
    let from = if row == start.row then cut start.col len else 0 in
    let to = if row == end.row then cut end.col len else len in
    if ltb from to then take (to - from) (drop from (line_at b row)) else []

-- The loop of `editor_copy_region_text` from `row` on, a round for each row that is left.
unfoldable pub copy_rows : ℕ → Buffer → Frame → Frame → ℕ → List ℕ
copy_rows zero b start end row = []
copy_rows (suc k) b start end row =
    row_piece b start end row
    ++ ((if ltb row end.row then 10 ∷ [] else []) ++ copy_rows k b start end (suc row))

unfoldable pub region_bytes : Buffer → Frame → Frame → List ℕ
unfolding copy_rows
region_bytes b start end = copy_rows (suc end.row - start.row) b start end start.row

-- `editor_copy_region_text` of a region: NULL where no byte was copied.
unfoldable pub region_text : Buffer → Frame → Frame → Option (List ℕ)
region_text b start end = elim (region_bytes b start end) [ [] ↦ none | c ∷ rest ↦ some (c ∷ rest) ]

-- `editor_kill_set`, and `osc52_set_clipboard` with the message that it writes.
abbrev pub kill : Editor → List ℕ → Bool → Editor
kill ed text append = record ed { kill_ring = kill_set ed.kill_ring text append }

abbrev pub set_clipboard : Editor → List ℕ → Editor
set_clipboard ed text = record ed { clipboard = osc52_message text ∷ ed.clipboard }

-- `editor_copy_region`: whether there was a region, and the editor after.
unfoldable pub copy_region : Editor → Bool × Editor
copy_region ed = elim (get_region ed) [
  | none ↦ (false, ed)
  | some (start, end) ↦ elim (region_text ed.buffer start end) [
    | none ↦ (false, ed)
    | some text ↦ (true, record (set_clipboard (kill ed text false) text) { mark_active = false })
  ]
]

-- `editor_kill_region` of the region and its text.
unfoldable pub kill_text : Editor → Frame → Frame → List ℕ → Editor
kill_text ed start end text = touch (record (set_clipboard (kill ed text ed.last_was_kill) text) {
  buffer = delete_region ed.buffer start.row start.col end.row end.col;
  frame = start;
  mark_active = false;
})

unfoldable pub kill_region : Editor → Bool × Editor
kill_region ed = elim (get_region ed) [
  | none ↦ (false, ed)
  | some (start, end) ↦ elim (region_text ed.buffer start end) [
    | none ↦ (false, ed)
    | some text ↦ (true, kill_text ed start end text)
  ]
]

-- `editor_kill_newline_and_next`
unfoldable pub kill_newline_and_next : Editor → Editor
kill_newline_and_next ed =
    let row = ed.frame.row in
    if leb (line_count ed.buffer) (suc row)
    then ed
    else record (kill (kill ed (10 ∷ []) ed.last_was_kill) (line_at ed.buffer (suc row)) true) {
      buffer = join_rows ed.buffer row;
    }

-- The bytes of a row between two columns are killed and go out.
unfoldable pub kill_columns : Editor → ℕ → ℕ → Editor
kill_columns ed from to =
    if ltb from to
    then record (kill ed (take (to - from) (drop from (line_at ed.buffer ed.frame.row)))
        ed.last_was_kill) { buffer = delete_range ed.buffer ed.frame.row from to }
    else ed

-- The two loops of `editor_kill_word_forward` and of `editor_kill_word_backward`.
unfoldable pub kill_word_end : List ℕ → ℕ → ℕ → ℕ
kill_word_end line len col = scan_forward not_word line len (scan_forward not_space line len col)

unfoldable pub kill_word_start : List ℕ → ℕ → ℕ
kill_word_start line col = scan_back not_word line (scan_back not_space line col)

unfoldable pub kill_word_forward : Editor → Editor
kill_word_forward ed =
    let len = line_length ed.buffer ed.frame.row in
    let line = line_at ed.buffer ed.frame.row in
    if leb (line_count ed.buffer) ed.frame.row
    then ed
    else if leb len ed.frame.col
    then kill_newline_and_next ed
    else kill_columns ed ed.frame.col (kill_word_end line len ed.frame.col)

-- The part of `editor_kill_word_backward` at a column that is not 0.
unfoldable pub kill_word_before : Editor → Editor
kill_word_before ed =
    let line = line_at ed.buffer ed.frame.row in
    let end = clamp_col line (line_length ed.buffer ed.frame.row) ed.frame.col in
    let start = kill_word_start line end in
    if ltb start end
    then record (kill_columns ed start end) { frame = record ed.frame { col = start } }
    else ed

unfoldable pub kill_word_backward : Editor → Editor
kill_word_backward ed =
    if leb (line_count ed.buffer) ed.frame.row
    then ed
    else if ed.frame.col == 0
    then elim ed.frame.row [
      | zero ↦ ed
      | suc r ↦
          kill_newline_and_next
            (record ed { frame = record { row = r; col = line_length ed.buffer r } })
    ]
    else kill_word_before ed

-- One round of the loop of `editor_yank_from`.
unfoldable pub yank_byte : Buffer × Frame → ℕ → Buffer × Frame
yank_byte (b, f) ch =
    if ch == 10
    then (insert_newline b f.row f.col, record { row = suc f.row; col = 0 })
    else (insert_char b f.row f.col ch, record f { col = suc f.col })

unfoldable pub yank_bytes : Buffer × Frame → List ℕ → Buffer × Frame
unfolding yank_byte
yank_bytes at [] = at
yank_bytes at (ch ∷ text) = yank_bytes (yank_byte at ch) text

-- `editor_yank_from`: an entry is `none` for NULL.
unfoldable pub yank_from : Editor → Option (List ℕ) → Bool × Editor
yank_from ed none = (false, ed)
yank_from ed (some text) =
    let (b, f) = yank_bytes (ed.buffer, ed.frame) text in
    (true, touch (record ed { buffer = b; frame = f; yank_start = ed.frame; yank_end = f }))

unfoldable pub yank : Editor → Bool × Editor
yank ed = if ed.kill_ring.len == 0 then (false, ed) else yank_from ed (current ed.kill_ring)
