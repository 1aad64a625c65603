-- ===== src/Input/Backspace.antt =====
-- Where the backspace key of src/input.c leaves the cursor.
use ved.Common.{
  get_or-head, ℕ, suc, ◌+◌, ◌<◌, ◌≡◌, ap, ◌∙◌, List, [], ◌++◌, arith, length, set, lt→leb_false,
  lt→ltb, length-append, get_or-set_self, length-set,
}
use ved.Buffer.{Buffer, line_count, line_at, line_length, join_rows, delete_char}
use ved.Buffer.Counts.{count-join_rows}
use ved.Buffer.Refine.{line_length-eq}
use ved.Editor.{Editor, touch}
use ved.Frame.{move_prev_char_in}
use ved.Frame.Chars.{at}
use ved.Input.Command.{backspace}

-- The line that a joined line becomes.
line_at-join_rows :
    (b : Buffer) (row : ℕ)
    → suc row < line_count b
    → line_at (join_rows b row) row ≡ line_at b row ++ line_at b (suc row)
line_at-join_rows b row h =
    get_or-head (set b.lines row merged) _ row [] (omega (arith, length-set {0} b.lines row merged))
    ∙ get_or-set_self b.lines row merged [] (omega arith)
  where
    merged : List ℕ
    merged = line_at b row ++ line_at b (suc row)

row-lt-join_rows :
    (b : Buffer) (row : ℕ) → suc row < line_count b → row < line_count (join_rows b row)
row-lt-join_rows b row h = omega (arith, count-join_rows b row h)

-- Backspace at the start of a line that is not the first joins it to the line above, and leaves the
-- cursor at the end of the joined line: behind the text that came from the line below, not where the
-- two lines met.
pub backspace-join :
    (ed : Editor) (r : ℕ)
    → suc r < line_count ed.buffer
    → let above = line_at ed.buffer r in
      let below = line_at ed.buffer (suc r) in
      let after = backspace (record ed { frame = at (suc r) 0 }) in
      (line_at after.buffer r ≡ above ++ below) × (after.frame ≡ at r (length above + length below))
unfolding backspace move_prev_char_in delete_char touch
backspace-join ed r h =
    rw (lt→ltb 0 (suc r) (omega arith), lt→leb_false (line_count ed.buffer) (suc r) h)
      (line_at-join_rows ed.buffer r h, λ i. at r (col i))
  where
    col :
        line_length (join_rows ed.buffer r) r
        ≡ length (line_at ed.buffer r) + length (line_at ed.buffer (suc r))
    col =
        line_length-eq (join_rows ed.buffer r) r (row-lt-join_rows ed.buffer r h)
        ∙ ap length (line_at-join_rows ed.buffer r h)
        ∙ length-append (line_at ed.buffer r) (line_at ed.buffer (suc r))
