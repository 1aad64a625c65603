-- ===== src/Input/Placed.antt =====
-- The edits and commands of src/input.c keep the cursor on a row of the buffer.
use ved.Common.{ℕ, ◌≤◌, ◌≡◌, false, some, List, [], ◌∷◌, arith, leb, if_cases, take}
use ved.Buffer.{Buffer, line_count, line_at, line_length, delete_char}
use ved.Buffer.Counts.{
  count-set, count-insert_char, count-insert_newline, count-insert_tab, count-join_rows,
  count-delete_forward, count-delete_range, count-delete_region,
}
use ved.Frame.{Frame, pos_compare, move_prev_char_in}
use ved.Frame.Rows.{OnRow}
use ved.Editor.{Editor, touch}
use ved.Region.{
  order_positions, get_region, kill_text, kill_region, kill_newline_and_next, kill_columns,
  kill_word_forward, kill_word_before, kill_word_backward, yank_byte, yank_bytes, yank_from, yank,
}
use ved.Input.Command.{
  open_line, kill_line, backspace, split_line, tab, delete_forward_command, type_key,
}

-- The cursor is on a row of the buffer, and no search is active.
abbrev pub IsEditing : Editor → Type 0
IsEditing ed = OnRow ed.buffer ed.frame × (ed.isearch_active ≡ false)

module _ (ed : Editor) (h : IsEditing ed) where
  pub open_line-IsEditing : IsEditing (open_line ed)
  unfolding open_line touch
  open_line-IsEditing = ground (arith, count-insert_newline ed.buffer ed.frame.row 0)

  pub split_line-IsEditing : IsEditing (split_line ed)
  unfolding split_line touch
  split_line-IsEditing = ground (arith, count-insert_newline ed.buffer ed.frame.row ed.frame.col)

  pub tab-IsEditing : IsEditing (tab ed)
  unfolding tab touch
  tab-IsEditing = ground (arith, count-insert_tab ed.buffer ed.frame.row ed.frame.col)

  pub type_key-IsEditing : (key : ℕ) → IsEditing (type_key ed key)
  unfolding type_key touch
  type_key-IsEditing key = ground (arith, count-insert_char ed.buffer ed.frame.row ed.frame.col key)

  pub delete_forward-IsEditing : IsEditing (delete_forward_command ed)
  unfolding delete_forward_command touch
  delete_forward-IsEditing =
      ground (arith, count-delete_forward ed.buffer ed.frame.row ed.frame.col)

  kill_newline_and_next-IsEditing : IsEditing (kill_newline_and_next ed)
  unfolding kill_newline_and_next
  kill_newline_and_next-IsEditing = ground (arith, count-join_rows ed.buffer ed.frame.row)

  pub kill_line-IsEditing : IsEditing (kill_line ed)
  unfolding kill_line touch
  kill_line-IsEditing = ground (
    arith,
    kill_newline_and_next-IsEditing,
    count-set ed.buffer ed.frame.row (take ed.frame.col (line_at ed.buffer ed.frame.row)),
  )

  kill_columns-IsEditing : (from to : ℕ) → IsEditing (kill_columns ed from to)
  unfolding kill_columns
  kill_columns-IsEditing from to = ground (arith, count-delete_range ed.buffer ed.frame.row from to)

  pub kill_word_forward-IsEditing : IsEditing (kill_word_forward ed)
  unfolding kill_word_forward
  kill_word_forward-IsEditing =
      if_cases IsEditing (leb (line_count ed.buffer) ed.frame.row) (λ _. h)
        (λ _.
          if_cases IsEditing (leb (line_length ed.buffer ed.frame.row) ed.frame.col)
            (λ _. kill_newline_and_next-IsEditing) (λ _. kill_columns-IsEditing ed.frame.col _))

  kill_word_before-IsEditing : IsEditing (kill_word_before ed)
  unfolding kill_word_before kill_columns
  kill_word_before-IsEditing = grind (arith, count-delete_range)

pub kill_word_backward-IsEditing : (ed : Editor) → IsEditing ed → IsEditing (kill_word_backward ed)
unfolding kill_word_backward
kill_word_backward-IsEditing ed h =
    grind (arith, kill_newline_and_next-IsEditing, kill_word_before-IsEditing ed h)

-- Backspace joins the cursor's line to the one above, or stays on its line.
pub backspace-IsEditing : (ed : Editor) → IsEditing ed → IsEditing (backspace ed)
unfolding backspace touch move_prev_char_in delete_char
backspace-IsEditing ed h = grind (arith, count-join_rows, count-set)

start-before :
    (a b start end : Frame)
    → order_positions a b ≡ some (start, end)
    → (start.row ≤ b.row) × (start.row ≤ end.row)
unfolding order_positions pos_compare
start-before a b start end e = ground arith

pub kill_region-IsEditing : (ed : Editor) → IsEditing ed → IsEditing (kill_region ed).1
unfolding kill_region get_region kill_text touch
kill_region-IsEditing ed h = grind (arith, start-before, count-delete_region)

yank_bytes-OnRow :
    (text : List ℕ) (b : Buffer) (f : Frame)
    → OnRow b f
    → let (b', f') = yank_bytes (b, f) text in OnRow b' f'
unfolding yank_bytes yank_byte
yank_bytes-OnRow [] b f h = h
yank_bytes-OnRow (c ∷ text) b f h =
    grind (arith, yank_bytes-OnRow text, count-insert_newline, count-insert_char)

pub yank-IsEditing : (ed : Editor) → IsEditing ed → IsEditing (yank ed).1
unfolding yank yank_from touch
yank-IsEditing ed h = grind (arith, yank_bytes-OnRow)
