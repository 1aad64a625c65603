-- ===== src/Render/Line.antt =====
-- `render_line_with_spans` and `selection_range_for_row` of src/render.c, and the drawing of a row.
use Prim.Native.Nat.{Ordering}
use ved.Common.{
  ℕ, zero, suc, ◌+◌, ◌-◌, Bool, true, false, ◌&&◌, ◌||◌, Option, none, some, List, [], ◌∷◌, ltb,
  leb, ◌==◌, if◌then◌else◌, length, take, drop, replicate, get_or,
}
use ved.Text.{bytes_eq}
use ved.Utf8.{byte_to_vis_col, vis_to_byte_col}
use ved.Buffer.{line_at}
use ved.Frame.{Frame, pos_compare}
use ved.Search.{size_max}
use ved.Editor.{Editor}
use ved.Output.{AppendBuf, ab_append, ab_append_expanding_tabs, reset, inverse}
use ved.Render.Highlight.{HighlightSpan}

-- An element of the arrays `colors` and `prio`.
pub record Cell : Type 0 where
  pub color : Option (List ℕ)
  pub prio : ℕ

abbrev pub blank : Cell
blank = record { color = none; prio = 0 }

-- The columns of a row that a span covers; none where `start` is not before `end`.
unfoldable pub span_start : HighlightSpan → ℕ → ℕ
span_start span row = if row == span.start_row then span.start_col else 0

unfoldable pub span_end : HighlightSpan → ℕ → ℕ → ℕ
span_end span row len =
    if row == span.end_row then (if ltb span.end_col len then span.end_col else len) else len

unfoldable pub paint_cell : HighlightSpan → Cell → Cell
paint_cell span c =
    if leb c.prio span.priority then record { color = some span.color; prio = span.priority } else c

-- `for (size_t j = start; j < end; j++)` on the cells from `j` on.
unfoldable pub paint_range : HighlightSpan → ℕ → ℕ → ℕ → List Cell → List Cell
unfolding paint_cell
paint_range span start end j [] = []
paint_range span start end j (c ∷ cells) =
    (if leb start j && ltb j end then paint_cell span c else c)
    ∷ paint_range span start end (suc j) cells

-- One round of the loop over the spans.
unfoldable pub paint_span : ℕ → ℕ → List Cell → HighlightSpan → List Cell
unfolding paint_range span_start span_end
paint_span row len cells span =
    let start = span_start span row in
    let end = span_end span row len in
    if ltb row span.start_row || ltb span.end_row row || ltb len start || leb end start
    then cells
    else paint_range span start end 0 cells

unfoldable pub paint_spans : ℕ → ℕ → List Cell → List HighlightSpan → List Cell
unfolding paint_span
paint_spans row len cells [] = cells
paint_spans row len cells (span ∷ spans) = paint_spans row len (paint_span row len cells span) spans

unfoldable pub same_color : Option (List ℕ) → Option (List ℕ) → Bool
same_color none none = true
same_color none (some d) = false
same_color (some c) none = false
same_color (some c) (some d) = bytes_eq c d

abbrev pub slice : List ℕ → ℕ → ℕ → List ℕ
slice line from len = take len (drop from line)

-- The output of a run of bytes of one colour.
unfoldable pub draw_run : AppendBuf → List ℕ → ℕ → ℕ → Option (List ℕ) → ℕ → AppendBuf
draw_run ab line from len active col =
    ab_append_expanding_tabs (ab_append ab (elim active [ none ↦ reset | some color ↦ color ]))
      (slice line from len) col

-- The loop over the columns with its variables, a round for each column that is left, and the run
-- that is left at its end.
unfoldable pub draw_runs :
    ℕ → AppendBuf → List ℕ → List Cell → ℕ → ℕ → Option (List ℕ) → ℕ → AppendBuf
unfolding draw_run
draw_runs zero ab line cells i run_start active col =
    if ltb run_start i then draw_run ab line run_start (i - run_start) active col else ab
draw_runs (suc k) ab line cells i run_start active col =
    let color = Cell.color (get_or cells i blank) in
    let same = draw_runs k ab line cells (suc i) run_start active col in
    let fresh = draw_runs k ab line cells (suc i) i color col in
    let after_run =
      draw_runs k (draw_run ab line run_start (i - run_start) active col) line cells (suc i) i color
        (col + byte_to_vis_col (drop run_start line) (i - run_start)) in
    if same_color color active then same else if ltb run_start i then after_run else fresh

unfoldable pub render_line_with_spans :
    AppendBuf → List ℕ → ℕ → ℕ → ℕ → List HighlightSpan → AppendBuf
unfolding paint_spans draw_runs
render_line_with_spans ab line row from vis_len spans =
    let len = length line in
    let cells = paint_spans row len (replicate len blank) spans in
    let start = if ltb from len then from else len in
    let end = if ltb (from + vis_len) len then from + vis_len else len in
    ab_append (draw_runs (end - start) ab line cells start start none (byte_to_vis_col line start))
      reset

-- The rows and columns of the mark and of the cursor, the first of them first.
abbrev pub ordered : Frame → Frame → Frame × Frame
ordered a b = elim (pos_compare a.row a.col b.row b.col) [
  | Ordering.gt ↦ (b, a)
  | Ordering.lt ↦ (a, b)
  | Ordering.eq ↦ (a, b)
]

-- `selection_range_for_row`, `none` for false.
unfoldable pub selection_range : Frame → Frame → ℕ → Option (ℕ × ℕ)
selection_range a b row =
    if ltb row a.row || ltb b.row row
    then none
    else if row == a.row && row == b.row
    then (if a.col == b.col then none else some (a.col, b.col))
    else if row == a.row
    then some (a.col, size_max)
    else if row == b.row
    then (if b.col == 0 then none else some (0, b.col))
    else some (0, size_max)

unfoldable pub selection_range_for_row : Editor → ℕ → Option (ℕ × ℕ)
unfolding selection_range
selection_range_for_row ed row =
    if ed.mark_active
    then (let (a, b) = ordered ed.mark ed.frame in selection_range a b row)
    else none

-- The part of a row with a selection that is drawn from the byte `from` up to `end_byte`, the byte
-- `from` at the visual column `vis`.
unfoldable pub draw_selection : AppendBuf → List ℕ → ℕ → ℕ → ℕ → ℕ → ℕ → AppendBuf
draw_selection ab line from end_byte vis sel_start sel_end =
    let draw_start = if ltb from sel_start then sel_start else from in
    let draw_end = if ltb sel_end end_byte then sel_end else end_byte in
    let before_len = draw_start - from in
    let sel_len = draw_end - draw_start in
    let after_len = end_byte - draw_end in
    let tail = drop from line in
    let plain =
      if ltb 0 before_len
      then ab_append_expanding_tabs ab (slice line from before_len) vis
      else ab in
    let marked =
      if ltb 0 sel_len
      then ab_append
          (ab_append_expanding_tabs (ab_append plain inverse)
            (slice line (from + before_len) sel_len) (vis + byte_to_vis_col tail before_len))
          reset
      else plain in
    if ltb 0 after_len
    then ab_append_expanding_tabs marked (slice line (from + before_len + sel_len) after_len)
        (vis + byte_to_vis_col tail (before_len + sel_len))
    else marked

-- The bytes of a line that the window has room for, and the byte behind the last one of them.
unfoldable pub end_byte_of : List ℕ → ℕ → ℕ → ℕ
end_byte_of line from cols = vis_to_byte_col line (length line) (byte_to_vis_col line from + cols)

unfoldable pub visible_len : List ℕ → ℕ → ℕ → ℕ
unfolding end_byte_of
visible_len line from cols =
    let len = if ltb from (length line) then end_byte_of line from cols - from else 0 in
    if ltb cols len then cols else len

-- A line with the bytes `sel_start` to `sel_end` selected.
unfoldable pub draw_selected : AppendBuf → List ℕ → ℕ → ℕ → ℕ → ℕ → AppendBuf
unfolding draw_selection visible_len end_byte_of
draw_selected ab line from cols sel_start sel_end =
    let len = length line in
    let vis = byte_to_vis_col line from in
    let end_byte = end_byte_of line from cols in
    let e = if ltb len sel_end then len else sel_end in
    let s = if ltb len sel_start then len else sel_start in
    let e' = if ltb e s then s else e in
    if leb e' from || leb end_byte s
    then ab_append_expanding_tabs ab (slice line from (visible_len line from cols)) vis
    else draw_selection ab line from end_byte vis s e'

-- The part of the loop over the rows that draws a line of the buffer.
unfoldable pub draw_line : Editor → List HighlightSpan → AppendBuf → ℕ → AppendBuf
unfolding draw_selected selection_range_for_row render_line_with_spans
draw_line ed spans ab row =
    let line = line_at ed.buffer row in
    let from = ed.col_offset in
    let len = visible_len line from ed.screen_cols in
    let plain = ab_append_expanding_tabs ab (slice line from len) (byte_to_vis_col line from) in
    if ltb 0 len
    then elim (selection_range_for_row ed row) [
      | some (s, e) ↦ draw_selected ab line from ed.screen_cols s e
      | none ↦ elim spans [
        | [] ↦ plain
        | t ∷ rest ↦ render_line_with_spans ab line row from len (t ∷ rest)
      ]
    ]
    else ab
