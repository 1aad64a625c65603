-- ===== src/Input/PlacedEscape.antt =====
-- The finder, the mouse and the escape sequences of src/input.c and src/finder.c keep the cursor on
-- a row of the buffer.
use ved.Common.{ℕ, ◌<◌, ◌≡◌, false, List, arith}
use ved.Os.{Os}
use ved.Buffer.{init_syntax, line_count}
use ved.Buffer.Counts.{count-load_file}
use ved.Frame.{clamp_frame}
use ved.Frame.Rows.{
  OnRow, move_prev_line-OnRow, move_next_line-OnRow, move_prev_char-OnRow, move_next_char-OnRow,
  move_next_word-OnRow, move_prev_word-OnRow,
}
use ved.Editor.{Editor, EscState, touch, set_status}
use ved.Finder.{open_path, open_file, finder_handle_key, open_finder, close}
use ved.Mouse.{
  handle_mouse_event, mouse_frame, mouse_row, wheel_up, wheel_down, button_press, button_release,
  drag,
}
use ved.Mouse.Cases.{handle_mouse_event-cases}
use ved.Region.{copy_region}
use ved.Input.Meta.{handle_meta_key, prompt_meta_key, edit_meta_key, copy_command, yank_pop_command}
use ved.Input.Escape.{escape_in, seen_key, csi_key, mouse_key, keep_byte, arrow_key, leave_escape}
use ved.Input.Placed.{IsEditing, kill_word_forward-IsEditing, kill_word_backward-IsEditing}

open_path-IsEditing :
    (os : Os) (name path : List ℕ) (ed : Editor)
    → IsEditing ed
    → IsEditing (open_path os name path ed)
unfolding open_path set_status init_syntax
open_path-IsEditing os name path ed h = ground (arith, count-load_file os ed.buffer path)

open_file-IsEditing : (os : Os) (ed : Editor) → IsEditing ed → IsEditing (open_file os ed)
unfolding open_file
open_file-IsEditing os ed h = grind (arith, open_path-IsEditing)

pub finder_handle_key-IsEditing :
    (os : Os) (ed : Editor) (key : ℕ) → IsEditing ed → IsEditing (finder_handle_key os ed key)
unfolding finder_handle_key close
finder_handle_key-IsEditing os ed key h = ground (arith, open_file-IsEditing os ed h)

open_finder-IsEditing : (os : Os) (ed : Editor) → IsEditing ed → IsEditing (open_finder os ed)
unfolding open_finder set_status
open_finder-IsEditing os ed h = ground arith

mouse_frame-OnRow :
    (ed : Editor) (x y : ℕ) → 0 < line_count ed.buffer → OnRow ed.buffer (mouse_frame ed x y)
unfolding mouse_frame mouse_row
mouse_frame-OnRow ed x y h = ground arith

handle_mouse_event-IsEditing :
    (ed : Editor) (seq : List ℕ) (type : ℕ)
    → IsEditing ed
    → IsEditing (handle_mouse_event ed seq type).1
unfolding wheel_up wheel_down button_press button_release drag clamp_frame
handle_mouse_event-IsEditing ed seq type h =
    handle_mouse_event-cases IsEditing ed h (ground arith) (ground arith)
      (λ x y. ground (arith, mouse_frame-OnRow ed x y))
      (λ x y. ground (arith, mouse_frame-OnRow ed x y))
      (λ x y. ground (arith, mouse_frame-OnRow ed x y)) seq type

copy_command-IsEditing : (ed : Editor) → IsEditing ed → IsEditing (copy_command ed)
unfolding copy_command copy_region set_status
copy_command-IsEditing ed h = ground arith

-- `M-y`, where the last command was no yank, as behind an escape.
yank_pop_command-IsEditing :
    (ed : Editor) → IsEditing ed → ed.last_was_yank ≡ false → IsEditing (yank_pop_command ed).editor
unfolding yank_pop_command
yank_pop_command-IsEditing ed h n = rw n h

handle_meta_key-IsEditing :
    (os : Os) (ed : Editor) (key : ℕ)
    → IsEditing ed
    → ed.last_was_yank ≡ false
    → IsEditing (handle_meta_key os ed key).editor
unfolding handle_meta_key prompt_meta_key edit_meta_key touch
handle_meta_key-IsEditing os ed key h n = ground (
  arith,
  open_finder-IsEditing os ed h,
  kill_word_forward-IsEditing ed h,
  kill_word_backward-IsEditing ed h,
  copy_command-IsEditing ed h,
  yank_pop_command-IsEditing ed h n,
  move_next_word-OnRow ed.buffer ed.frame,
  move_prev_word-OnRow ed.buffer ed.frame,
)

arrow_key-IsEditing : (ed : Editor) (key : ℕ) → IsEditing ed → IsEditing (arrow_key ed key)
unfolding arrow_key
arrow_key-IsEditing ed key h = ground (
  arith,
  move_prev_line-OnRow ed.buffer ed.frame,
  move_next_line-OnRow ed.buffer ed.frame,
  move_prev_char-OnRow ed.buffer ed.frame,
  move_next_char-OnRow ed.buffer ed.frame,
)

keep_byte-IsEditing : (ed : Editor) (key : ℕ) → IsEditing ed → IsEditing (keep_byte ed key)
unfolding keep_byte
keep_byte-IsEditing ed key h = ground arith

-- A byte of a sequence keeps the cursor on a row.
pub escape_in-IsEditing :
    (st : EscState) (os : Os) (ed : Editor) (key : ℕ)
    → IsEditing ed
    → ed.last_was_yank ≡ false
    → IsEditing (escape_in st os ed key).editor
unfolding escape_in seen_key csi_key mouse_key
escape_in-IsEditing st os ed key h n = ground (
  arith,
  handle_meta_key-IsEditing os (leave_escape ed) key h n,
  arrow_key-IsEditing (leave_escape ed) key h,
  keep_byte-IsEditing ed key h,
  open_finder-IsEditing os (leave_escape ed) h,
  handle_mouse_event-IsEditing (leave_escape ed) ed.esc_buf key h,
)
