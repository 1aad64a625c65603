-- ===== src/Input/Clean.antt =====
-- The commands and the escape sequences of src/input.c keep the lines and the kill ring clean: C
-- strings, the lines without newlines.
use ved.Common.{ℕ, suc, ◌<◌, true, List, [], arith, take, drop, if_cases, ltb}
use ved.Text.{codes}
use ved.Buffer.{line_at, line_length, line_count}
use ved.Buffer.Clean.{
  LineByte, line_at-CleanLine, take-CleanLine, drop-CleanLine, set-CleanLines,
  insert_char-CleanLines, insert_newline-CleanLines, insert_tab-CleanLines, delete_char-CleanLines,
  delete_forward-CleanLines,
}
use ved.KillRing.Clean.{kill_set-CleanRing}
use ved.Editor.{Editor, touch, set_status}
use ved.Region.{kill_word_forward, kill_word_before, kill_word_backward}
use ved.Region.Clean.{
  IsClean, line-CleanText, yank-IsClean, kill_region-IsClean, kill_columns-IsClean,
  kill_newline_and_next-IsClean,
}
use ved.Input.Command.{
  open_line, kill_line, backspace, split_line, tab, delete_forward_command, type_key, mark_command,
  kill_region_command, yank_command, handle_command,
}

pub set_status-IsClean :
    (ed : Editor) (prefix text : List ℕ) → IsClean ed → IsClean (set_status ed prefix text)
unfolding set_status
set_status-IsClean ed prefix text h = h

module _ (ed : Editor) (h : IsClean ed) where
  kill_word_before-IsClean : IsClean (kill_word_before ed)
  unfolding kill_word_before
  kill_word_before-IsClean = grind (arith, kill_columns-IsClean ed h)

  pub kill_word_forward-IsClean : IsClean (kill_word_forward ed)
  unfolding kill_word_forward
  kill_word_forward-IsClean =
      grind (arith, kill_newline_and_next-IsClean ed h, kill_columns-IsClean ed h)

  pub kill_word_backward-IsClean : IsClean (kill_word_backward ed)
  unfolding kill_word_backward
  kill_word_backward-IsClean =
      grind (arith, kill_word_before-IsClean, kill_newline_and_next-IsClean)

  kill_line-IsClean : IsClean (kill_line ed)
  unfolding kill_line touch
  kill_line-IsClean =
      let row = ed.frame.row in
      let col = ed.frame.col in
      let line = line_at ed.buffer row in
      let clean = line_at-CleanLine ed.buffer row h.0 in
      if_cases IsClean (ltb col (line_length ed.buffer row))
        (λ _. (
          set-CleanLines ed.buffer.lines row (take col line) (take-CleanLine col line clean) h.0,
          kill_set-CleanRing ed.kill_ring (drop col line) ed.last_was_kill
              (line-CleanText (drop col line) (drop-CleanLine col line clean)) h.1,
        ))
        (λ _.
          if_cases IsClean (ltb (suc row) (line_count ed.buffer))
            (λ _. kill_newline_and_next-IsClean ed h) (λ _. h))

  open_line-IsClean : IsClean (open_line ed)
  unfolding open_line touch
  open_line-IsClean = (insert_newline-CleanLines ed.buffer h.0 _ _, h.1)

  split_line-IsClean : IsClean (split_line ed)
  unfolding split_line touch
  split_line-IsClean = (insert_newline-CleanLines ed.buffer h.0 _ _, h.1)

  tab-IsClean : IsClean (tab ed)
  unfolding tab touch
  tab-IsClean = (insert_tab-CleanLines ed.buffer _ _ h.0, h.1)

  delete_forward_command-IsClean : IsClean (delete_forward_command ed)
  unfolding delete_forward_command touch
  delete_forward_command-IsClean = (delete_forward-CleanLines ed.buffer h.0 _ _, h.1)

  type_key-IsClean : (key : ℕ) → LineByte key → IsClean (type_key ed key)
  unfolding type_key touch
  type_key-IsClean key p = (insert_char-CleanLines ed.buffer h.0 _ _ key p, h.1)

  backspace-IsClean : IsClean (backspace ed)
  unfolding backspace touch
  backspace-IsClean = grind (arith, delete_char-CleanLines ed.buffer h.0 ed.frame.row ed.frame.col)

  mark_command-IsClean : IsClean (mark_command ed)
  unfolding mark_command
  mark_command-IsClean = grind (arith, set_status-IsClean)

  kill_region_command-IsClean : IsClean (kill_region_command ed).editor
  unfolding kill_region_command
  kill_region_command-IsClean = grind (arith, kill_region-IsClean ed h, set_status-IsClean)

  yank_command-IsClean : IsClean (yank_command ed).editor
  unfolding yank_command
  yank_command-IsClean = grind (arith, yank-IsClean ed h)

  pub handle_command-IsClean : (key : ℕ) → key < 256 → IsClean (handle_command ed key).editor
  unfolding handle_command
  handle_command-IsClean key byte = ground (
    arith,
    mark_command-IsClean,
    kill_region_command-IsClean,
    yank_command-IsClean,
    kill_line-IsClean,
    open_line-IsClean,
    split_line-IsClean,
    tab-IsClean,
    backspace-IsClean,
    delete_forward_command-IsClean,
    type_key-IsClean key,
    set_status-IsClean (record ed { pending_ctrl_x = true }) (codes "C-x") [] h,
  )
