-- ===== src/Buffer/Delete.antt =====
-- The two single-character deletions of src/buffer.c take out what stands between the cursor and the
-- position that the matching movement of src/input.c goes to.
use ved.Common.{
  ℕ, zero, suc, ◌≤◌, ◌<◌, ◌≡◌, sym, inl, inr, [], ◌++◌, arith, length, take_all, lt→leb_false,
  le→leb, lt_or_le, ne→==_false, ==_refl, le→ltb_false,
}
use ved.Utf8.{next_boundary, prev_boundary}
use ved.Contents.{text, before, after, text-splice, text-remove_rows, before-append-after}
use ved.Buffer.{Buffer, line_count, line_at, line_length, delete_char, delete_forward, join_rows}
use ved.Buffer.Refine.{line_length-eq}
use ved.Frame.Chars.{
  at, next_char-inside, next_char-end, next_char-last, prev_char-inside, prev_char-start,
  prev_char-first,
}
use ved.Frame.{Frame, move_prev_char, move_next_char}
use ved.Frame.Bounds.{InText}

-- Joining a line to the next, where there is one, takes out what stands between the end of the one
-- and the start of the other, their newline, and nothing else.
pub text-join_rows :
    (b : Buffer) (row : ℕ)
    → suc row < line_count b
    → text (join_rows b row).lines
      ≡ before b.lines row (length (line_at b row)) ++ after b.lines (suc row) 0
text-join_rows b row h =
    rw (take_all (length (line_at b row)) (line_at b row) (omega arith)) at
      (text-remove_rows b.lines row (length (line_at b row)) (suc row) 0 (omega arith) h)

-- At a cursor in the text, `C-d` takes out the text from the cursor to where `C-f` would move it:
-- a character, a line break at the end of a line, or nothing at the end of the text.
pub text-delete_forward :
    (b : Buffer) (f : Frame)
    → InText b f
    → let g = move_next_char b f in
      text (delete_forward b f.row f.col).lines
      ≡ before b.lines f.row f.col ++ after b.lines g.row g.col
unfolding delete_forward
text-delete_forward b f v =
    rw (lt→leb_false (line_count b) row v.row_in, le→ltb_false len col v.col_in)
      (elim (lt_or_le col len) [
        | inl p ↦
            rw (ne→==_false col len (omega arith), next_char-inside b row col p)
              (text-splice b.lines row col (next_boundary (line_at b row) len col) [] v.row_in)
        | inr p ↦
            let e : col ≡ len = omega (arith, v.col_in) in
            rw (e, ==_refl len)
              (elim (lt_or_le (suc row) (line_count b)) [
                | inl q ↦
                    rw
                      (
                        lt→leb_false (line_count b) (suc row) q,
                        next_char-end b row len (omega arith) q,
                        line_length-eq b row v.row_in,
                      )
                      (text-join_rows b row q)
                | inr q ↦
                    rw (le→leb (line_count b) (suc row) q, next_char-last b row len (omega arith) q)
                      (sym (before-append-after b.lines row len v.row_in))
              ])
      ])
  where
    open f use {row, col}

    len : ℕ
    len = line_length b row

-- At a cursor in the text, `buffer_delete_char` takes out the text from where `C-b` would move the
-- cursor up to the cursor: a character, a line break at the start of a line, or nothing at the
-- start of the text.
pub text-delete_char :
    (b : Buffer) (f : Frame)
    → InText b f
    → let g = move_prev_char b f in
      text (delete_char b f.row f.col).lines
      ≡ before b.lines g.row g.col ++ after b.lines f.row f.col
unfolding delete_char
text-delete_char b f v = by_col f.row f.col v.row_in v.col_in
  where
    by_col :
        (r c : ℕ)
        → r < line_count b
        → c ≤ line_length b r
        → let g = move_prev_char b (at r c) in
          text (delete_char b r c).lines ≡ before b.lines g.row g.col ++ after b.lines r c
    by_col zero zero h k = rw (prev_char-first b) (sym (before-append-after b.lines 0 0 h))
    by_col (suc r) zero h k =
        rw
          (
            lt→leb_false (line_count b) (suc r) h,
            prev_char-start b r,
            line_length-eq b r (omega arith),
          )
          (text-join_rows b r h)
    by_col r (suc c) h k =
        rw
          (
            lt→leb_false (line_count b) r h,
            le→ltb_false (line_length b r) (suc c) k,
            prev_char-inside b r (suc c) (omega arith),
          )
          (text-splice b.lines r (prev_boundary (line_at b r) (suc c)) (suc c) [] h)
