-- ===== src/Input/Command.antt =====
-- The commands of `editor_process_key` in src/input.c: its `switch`, and the keys behind `C-x`.
use ved.Common.{
  ℕ, suc, ◌+◌, true, false, ◌&&◌, ◌||◌, none, some, List, [], ltb, leb, ◌==◌, if◌then◌else◌, take,
  drop, set,
}
use ved.Text.{codes}
use ved.Os.{Os}
use ved.Utf8.{prev_boundary}
use ved.Buffer.{
  Buffer, BufferMode, c_mode, makefile_mode, line_count, line_at, line_length, clamp, insert_char,
  insert_newline, insert_tab, delete_char, delete_forward, memory_after_delete,
}
use ved.Frame.{
  Frame, move_prev_line, move_next_line, move_prev_char, move_prev_char_in, move_next_char,
  move_line_start, move_line_end,
}
use ved.Region.{kill, kill_region, kill_newline_and_next, yank}
use ved.Editor.{Editor, touch, set_status}
use ved.Finder.{ctrl, key_backspace}
use ved.Input.Flags.{Outcome, done, killed, yanked}
use ved.Input.Prompt.{save, prompt_save_as}

-- `C-@`
unfoldable pub mark_command : Editor → Editor
mark_command ed =
    if ed.mark_active && ed.mark.row == ed.frame.row && ed.mark.col == ed.frame.col
    then set_status (record ed { mark_active = false }) (codes "Mark cleared") []
    else set_status (record ed { mark_active = true; mark = ed.frame }) (codes "Mark set") []

-- `C-o`
unfoldable pub open_line : Editor → Editor
open_line ed = touch (record ed {
  buffer = insert_newline ed.buffer ed.frame.row 0;
  frame = record ed.frame { row = suc ed.frame.row };
})

-- `C-k`; the end of the line is cut off by a terminator.
unfoldable pub kill_line : Editor → Editor
kill_line ed =
    let row = ed.frame.row in
    let col = ed.frame.col in
    let line = line_at ed.buffer row in
    let cut = record ed.buffer { lines = set ed.buffer.lines row (take col line) } in
    if ltb col (line_length ed.buffer row)
    then touch (record (kill ed (drop col line) ed.last_was_kill) { buffer = cut })
    else if ltb (suc row) (line_count ed.buffer)
    then touch (kill_newline_and_next ed)
    else ed

-- `C-w`
unfoldable pub kill_region_command : Editor → Outcome
kill_region_command ed =
    let (was_killed, ed') = kill_region ed in
    if was_killed
    then killed (set_status ed' (codes "Killed") [])
    else done (set_status ed' (codes "No region") [])

-- `C-y`
unfoldable pub yank_command : Editor → Outcome
yank_command ed = let (was_yanked, ed') = yank ed in if was_yanked then yanked ed' else done ed'

-- The memory in which `frame_move_prev_char` looks for the start of a character once
-- `buffer_delete_char` has moved the rest of the line.
unfoldable pub memory_after_backspace : Buffer → Frame → List ℕ
memory_after_backspace b f =
    let line = line_at b f.row in
    let c = clamp (line_length b f.row) f.col in memory_after_delete line (prev_boundary line c) c

-- The backspace key
unfoldable pub backspace : Editor → Editor
unfolding memory_after_backspace
backspace ed =
    let b = delete_char ed.buffer ed.frame.row ed.frame.col in
    if ltb 0 ed.frame.col || ltb 0 ed.frame.row
    then touch (record ed {
      buffer = b;
      frame = move_prev_char_in (memory_after_backspace ed.buffer ed.frame) b ed.frame;
    })
    else ed

-- The return key
unfoldable pub split_line : Editor → Editor
split_line ed = touch (record ed {
  buffer = insert_newline ed.buffer ed.frame.row ed.frame.col;
  frame = record { row = suc ed.frame.row; col = 0 };
})

-- How far the tab key moves the cursor.
unfoldable pub tab_step : BufferMode → ℕ
tab_step makefile_mode = 1
tab_step c_mode = 2

unfoldable pub tab : Editor → Editor
unfolding tab_step
tab ed = touch (record ed {
  buffer = insert_tab ed.buffer ed.frame.row ed.frame.col;
  frame = record ed.frame { col = ed.frame.col + tab_step ed.buffer.mode };
})

-- `C-d`
unfoldable pub delete_forward_command : Editor → Editor
delete_forward_command ed =
    touch (record ed { buffer = delete_forward ed.buffer ed.frame.row ed.frame.col })

-- A key that stands for itself.
unfoldable pub type_key : Editor → ℕ → Editor
type_key ed key = touch (record ed {
  buffer = insert_char ed.buffer ed.frame.row ed.frame.col key;
  frame = record ed.frame { col = suc ed.frame.col };
})

-- The `switch`.
unfoldable pub handle_command : Editor → ℕ → Outcome
handle_command ed key =
    if key == 0
    then done (mark_command ed)
    else if key == ctrl b'x'
    then done (set_status (record ed { pending_ctrl_x = true }) (codes "C-x") [])
    else if key == ctrl b'p'
    then done (record ed { frame = move_prev_line ed.buffer ed.frame })
    else if key == ctrl b'n'
    then done (record ed { frame = move_next_line ed.buffer ed.frame })
    else if key == ctrl b'b'
    then done (record ed { frame = move_prev_char ed.buffer ed.frame })
    else if key == ctrl b'f'
    then done (record ed { frame = move_next_char ed.buffer ed.frame })
    else if key == ctrl b'a'
    then done (record ed { frame = move_line_start ed.frame })
    else if key == ctrl b'e'
    then done (record ed { frame = move_line_end ed.buffer ed.frame })
    else if key == ctrl b'o'
    then done (open_line ed)
    else if key == ctrl b'k'
    then killed (kill_line ed)
    else if key == ctrl b'y'
    then yank_command ed
    else if key == ctrl b'w'
    then kill_region_command ed
    else if key == key_backspace
    then done (backspace ed)
    else if key == 13
    then done (split_line ed)
    else if key == 9
    then done (tab ed)
    else if key == ctrl b'd'
    then done (delete_forward_command ed)
    else if leb 32 key
    then done (type_key ed key)
    else done ed

-- `C-x C-s`
unfoldable pub save_command : Os → Editor → Editor
save_command os ed = elim ed.buffer.file_path [
  | none ↦ prompt_save_as ed
  | some path ↦ save os ed path false
]
