-- ===== src/Tests/Texts.antt =====
-- The text of a small buffer after edits, copies and yanks.
use ved.Common.{true, [], refl, inl, ◌≡◌, inl, some, ◌∷◌, ◌++◌, arith}
use ved.Text.{codes}
use ved.Buffer.{line_length, delete_region, delete_char, delete_forward}
use ved.Buffer.Refine.{text-delete_region}
use ved.Buffer.Delete.{text-delete_char, text-delete_forward}
use ved.Contents.{text, before, after}
use ved.Frame.{move_next_char, move_prev_char, pos_compare}
use ved.Frame.Bounds.{InText}
use ved.Editor.{Editor, editor_create}
use ved.KillRing.{empty}
use ved.KillRing.Laws.{empty-IsValid}
use ved.Region.{
  get_region, order_positions, region_bytes, copy_rows, row_piece, kill_region, yank_from, yank,
}
use ved.Region.Restore.{yank-kill_region}
use ved.Region.Copy.{text-region_bytes}
use ved.Region.Yank.{text-yank_from}
use ved.Tests.{doc, rows, pos_at, started}

text-delete_region_example :
    (text (delete_region doc 0 1 1 1).lines ≡ before rows 0 1 ++ after rows 1 1)
    × (text (delete_region doc 1 1 0 1).lines ≡ before rows 0 1 ++ after rows 1 1)
text-delete_region_example = text-delete_region doc 0 1 1 1 (omega arith) (inl (omega arith))

end_of_row : InText doc (pos_at 1 3)
unfolding line_length
end_of_row = record { row_in = omega arith; col_in = omega arith }

text-delete_char_example :
    let g = move_prev_char doc (pos_at 1 3) in
    text (delete_char doc 1 3).lines ≡ before rows g.row g.col ++ after rows 1 3
text-delete_char_example = text-delete_char doc (pos_at 1 3) end_of_row

text-delete_forward_example :
    let g = move_next_char doc (pos_at 1 3) in
    text (delete_forward doc 1 3).lines ≡ before rows 1 3 ++ after rows g.row g.col
text-delete_forward_example = text-delete_forward doc (pos_at 1 3) end_of_row

text-region_bytes_example :
    before rows 0 1 ++ (region_bytes doc (pos_at 0 1) (pos_at 1 1) ++ after rows 1 1) ≡ text rows
text-region_bytes_example =
    text-region_bytes doc (pos_at 0 1) (pos_at 1 1) (omega arith) (λ e. omega (arith, e))
      (omega arith)

abbrev editing : Editor
editing = record started { buffer = doc; frame = pos_at 1 3 }

start_of_region : InText doc (pos_at 0 1)
unfolding line_length
start_of_region = record { row_in = omega arith; col_in = omega arith }

-- The same with the mark at "b" and the cursor behind the accent.
abbrev marked : Editor
marked = record started {
  buffer = doc;
  frame = pos_at 1 3;
  mark_active = true;
  mark = pos_at 0 1;
  kill_ring = empty;
}

found_region : get_region marked ≡ some (pos_at 0 1, pos_at 1 3)
unfolding get_region order_positions pos_compare
found_region = refl

copied : region_bytes doc (pos_at 0 1) (pos_at 1 3) ≡ 98 ∷ 10 ∷ 99 ∷ 0xc3 ∷ 0xa9 ∷ []
unfolding region_bytes copy_rows row_piece line_length
copied = refl

yank-kill_region_example :
    let ed = (yank (kill_region marked).1).1 in
    (text ed.buffer.lines ≡ text rows) × InText ed.buffer ed.frame
unfolding editor_create
yank-kill_region_example =
    yank-kill_region marked (pos_at 0 1) (pos_at 1 3) 98 (10 ∷ 99 ∷ 0xc3 ∷ 0xa9 ∷ []) found_region
      (record { start_in = start_of_region; end_in = end_of_row; ordered = inl (omega arith) })
      copied empty-IsValid refl

text-yank_from_example :
    let ed = (yank_from editing (some (codes "x" ++ 10 ∷ codes "y"))).1 in
    (text ed.buffer.lines ≡ before rows 1 3 ++ ((codes "x" ++ 10 ∷ codes "y") ++ after rows 1 3))
    × (before ed.buffer.lines ed.frame.row ed.frame.col
        ≡ before rows 1 3 ++ (codes "x" ++ 10 ∷ codes "y"))
    × InText ed.buffer ed.frame
    × (ed.yank_start ≡ pos_at 1 3)
    × (ed.yank_end ≡ ed.frame)
text-yank_from_example = text-yank_from editing (codes "x" ++ 10 ∷ codes "y") end_of_row
