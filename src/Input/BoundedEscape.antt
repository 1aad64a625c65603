-- ===== src/Input/BoundedEscape.antt =====
-- The finder, the mouse and the escape sequences of src/input.c and src/finder.c stay inside the
-- arrays of `Editor`.
use ved.Common.{ℕ, ◌<◌, List, [], ◌∷◌, arith, length, length-append}
use ved.Common.Int.{ℤ, pos, negsuc}
use ved.Text.{codes}
use ved.Os.{Os}
use ved.Utf8.{prev_boundary}
use ved.Field
use ved.Field.{Field, blank}
use ved.Field.Bounds.{
  FieldOp, apply, apply-IsValid, delete_range-IsValid, insert-IsValid, to_start, to_end,
  to_prev_char, to_next_char, to_prev_word, to_next_word, erase_prev_word, erase_next_word,
}
use ved.KillRing.{KillRing, rotate}
use ved.KillRing.Laws.{rotate-IsValid}
use ved.Editor.{Editor, EscState, Finder, touch}
use ved.Finder.{
  update_matches, adjust_scroll, move_selection, query_delete_range, query_backspace,
  query_delete_forward, query_delete_prev_word, query_kill_to_end, query_insert, open_path,
  open_file, finder_handle_key, open_finder, close, list_rows,
}
use ved.Mouse.{handle_mouse_event, wheel_up, wheel_down, button_press, button_release, drag}
use ved.Mouse.Cases.{handle_mouse_event-cases}
use ved.Region.{copy_region, yank_from}
use ved.Input.Meta.{
  lower_key, handle_meta_key, prompt_meta_key, edit_meta_key, copy_command, yank_pop,
  yank_pop_command,
}
use ved.Input.Escape.{escape_in, seen_key, csi_key, mouse_key, keep_byte, arrow_key, leave_escape}
use ved.Input.Bounded.{
  FieldFits, RingFits, IsBounded, set_status-IsBounded, kill_word_forward-IsBounded,
  kill_word_backward-IsBounded, copy_region-IsBounded,
}

-- The operations on the line of input, with the predicate shut.
module _ (f : Field) (h : FieldFits f) where
  pub apply-FieldFits : (op : FieldOp) → FieldFits (apply op f)
  unfolding FieldFits
  apply-FieldFits op = apply-IsValid op f h

  delete_range-FieldFits : (start end : ℕ) → FieldFits (Field.delete_range f start end)
  unfolding FieldFits
  delete_range-FieldFits start end = delete_range-IsValid f start end h

  insert-FieldFits : (key : ℕ) → FieldFits (Field.insert f key)
  unfolding FieldFits
  insert-FieldFits key = insert-IsValid f key h

pub blank-FieldFits : FieldFits blank
unfolding FieldFits
blank-FieldFits = record { fits = omega arith; col_in = omega arith }

-- A key of the finder edits its query.
module _ (fd : Finder) (h : FieldFits fd.query) where
  query_delete_range-FieldFits :
      (start end : ℕ) → FieldFits (Finder.query (query_delete_range fd start end))
  unfolding query_delete_range update_matches
  query_delete_range-FieldFits start end =
      ground (arith, delete_range-FieldFits fd.query h start end)

  query_insert-FieldFits : (key : ℕ) → FieldFits (Finder.query (query_insert fd key))
  unfolding query_insert update_matches
  query_insert-FieldFits key = ground (arith, insert-FieldFits fd.query h key)

  query_backspace-FieldFits : FieldFits (Finder.query (query_backspace fd))
  unfolding query_backspace
  query_backspace-FieldFits =
      ground (
        arith,
        query_delete_range-FieldFits (prev_boundary fd.query.bytes fd.query.col) fd.query.col,
      )

  query_delete_forward-FieldFits : FieldFits (Finder.query (query_delete_forward fd))
  unfolding query_delete_forward
  query_delete_forward-FieldFits = grind (arith, query_delete_range-FieldFits)

  query_delete_prev_word-FieldFits : FieldFits (Finder.query (query_delete_prev_word fd))
  unfolding query_delete_prev_word
  query_delete_prev_word-FieldFits = grind (arith, query_delete_range-FieldFits)

  move_selection-FieldFits :
      (rows : ℕ) (delta : ℤ) → FieldFits (Finder.query (move_selection rows delta fd))
  unfolding move_selection adjust_scroll
  move_selection-FieldFits rows delta = ground arith

open_file-IsBounded : (os : Os) (ed : Editor) → IsBounded ed → IsBounded (open_file os ed)
unfolding open_file open_path
open_file-IsBounded os ed b = grind (arith, set_status-IsBounded)

pub finder_handle_key-IsBounded :
    (os : Os) (ed : Editor) (key : ℕ) → IsBounded ed → IsBounded (finder_handle_key os ed key)
unfolding finder_handle_key close query_kill_to_end
finder_handle_key-IsBounded os ed key b = ground (
  arith,
  open_file-IsBounded os ed b,
  query_backspace-FieldFits ed.finder b.query_in,
  query_delete_forward-FieldFits ed.finder b.query_in,
  query_delete_prev_word-FieldFits ed.finder b.query_in,
  query_delete_range-FieldFits ed.finder b.query_in ed.finder.query.col
      (length ed.finder.query.bytes),
  query_insert-FieldFits ed.finder b.query_in key,
  move_selection-FieldFits ed.finder b.query_in (list_rows ed) (negsuc 0),
  move_selection-FieldFits ed.finder b.query_in (list_rows ed) (pos 1),
  apply-FieldFits ed.finder.query b.query_in to_start,
  apply-FieldFits ed.finder.query b.query_in to_end,
  apply-FieldFits ed.finder.query b.query_in to_prev_char,
  apply-FieldFits ed.finder.query b.query_in to_next_char,
)

open_finder-IsBounded : (os : Os) (ed : Editor) → IsBounded ed → IsBounded (open_finder os ed)
unfolding open_finder update_matches
open_finder-IsBounded os ed b = grind (arith, blank-FieldFits, set_status-IsBounded)

handle_mouse_event-IsBounded :
    (ed : Editor) (seq : List ℕ) (type : ℕ)
    → IsBounded ed
    → IsBounded (handle_mouse_event ed seq type).1
unfolding wheel_up wheel_down button_press button_release drag
handle_mouse_event-IsBounded ed seq type b =
    handle_mouse_event-cases (λ ed'. IsBounded ed') ed b (ground arith) (ground arith) (λ x y. b)
      (λ x y. b) (λ x y. b) seq type

copy_command-IsBounded : (ed : Editor) → IsBounded ed → IsBounded (copy_command ed)
unfolding copy_command
copy_command-IsBounded ed b = ground (
  arith,
  copy_region-IsBounded ed b,
  set_status-IsBounded (copy_region ed).1 (codes "Copied") [],
  set_status-IsBounded (copy_region ed).1 (codes "No region") [],
)

rotate-RingFits : (k : KillRing) → RingFits k → 0 < k.len → RingFits (rotate k)
unfolding RingFits
rotate-RingFits k h some_in = rotate-IsValid k h some_in

yank_pop_command-IsBounded : (ed : Editor) → IsBounded ed → IsBounded (yank_pop_command ed).editor
unfolding yank_pop_command yank_pop yank_from touch
yank_pop_command-IsBounded ed b = grind (arith, rotate-RingFits)

prompt_meta_key-IsBounded :
    (os : Os) (ed : Editor) (key : ℕ) → IsBounded ed → IsBounded (prompt_meta_key os ed key).editor
unfolding prompt_meta_key
prompt_meta_key-IsBounded os ed key b = ground (
  arith,
  open_finder-IsBounded os ed b,
  apply-FieldFits ed.prompt b.prompt_in to_start,
  apply-FieldFits ed.prompt b.prompt_in to_end,
  apply-FieldFits ed.prompt b.prompt_in to_prev_word,
  apply-FieldFits ed.prompt b.prompt_in to_next_word,
  apply-FieldFits ed.prompt b.prompt_in erase_prev_word,
  apply-FieldFits ed.prompt b.prompt_in erase_next_word,
)

handle_meta_key-IsBounded :
    (os : Os) (ed : Editor) (key : ℕ) → IsBounded ed → IsBounded (handle_meta_key os ed key).editor
unfolding handle_meta_key edit_meta_key touch lower_key
handle_meta_key-IsBounded os ed key b = ground (
  arith,
  prompt_meta_key-IsBounded os ed (lower_key key) b,
  open_finder-IsBounded os ed b,
  kill_word_forward-IsBounded ed b,
  kill_word_backward-IsBounded ed b,
  copy_command-IsBounded ed b,
  yank_pop_command-IsBounded ed b,
)

arrow_key-IsBounded : (ed : Editor) (key : ℕ) → IsBounded ed → IsBounded (arrow_key ed key)
unfolding arrow_key
arrow_key-IsBounded ed key b = ground (
  arith,
  move_selection-FieldFits ed.finder b.query_in (list_rows ed) (negsuc 0),
  move_selection-FieldFits ed.finder b.query_in (list_rows ed) (pos 1),
)

keep_byte-IsBounded : (ed : Editor) (key : ℕ) → IsBounded ed → IsBounded (keep_byte ed key)
unfolding keep_byte
keep_byte-IsBounded ed key b = ground (arith, length-append {0} ed.esc_buf (key ∷ []))

pub escape_in-IsBounded :
    (st : EscState) (os : Os) (ed : Editor) (key : ℕ)
    → IsBounded ed
    → IsBounded (escape_in st os ed key).editor
unfolding escape_in seen_key csi_key mouse_key
escape_in-IsBounded st os ed key b = ground (
  arith,
  handle_meta_key-IsBounded os (leave_escape ed) key b,
  arrow_key-IsBounded (leave_escape ed) key b,
  keep_byte-IsBounded ed key b,
  open_finder-IsBounded os (leave_escape ed) b,
  handle_mouse_event-IsBounded (leave_escape ed) ed.esc_buf key b,
)
