-- ===== src/Input/Meta.antt =====
-- `handle_meta_key` of src/input.c: the key behind an escape.
use ved.Common.{ℕ, ◌+◌, ◌-◌, true, false, ◌&&◌, leb, ltb, ◌==◌, if◌then◌else◌, []}
use ved.Text.{codes}
use ved.Os.{Os}
use ved.Field.{Field}
use ved.Field
use ved.Buffer.{delete_region}
use ved.Frame.{move_next_word, move_prev_word}
use ved.KillRing.{kill_ring_max, rotate, current}
use ved.Region.{copy_region, kill_word_forward, kill_word_backward, yank_from}
use ved.Editor.{Editor, touch, set_status}
use ved.Finder.{open_finder, key_backspace}
use ved.Input.Flags.{Outcome, done, passed, killed}

-- `if (key >= 'A' && key <= 'Z') key = key - 'A' + 'a';`
unfoldable pub lower_key : ℕ → ℕ
lower_key key = if leb b'A' key && leb key b'Z' then key - b'A' + b'a' else key

abbrev pub with_prompt : Editor → Field → Editor
with_prompt ed prompt = record ed { prompt = prompt }

-- The branch for an open prompt.
unfoldable pub prompt_meta_key : Os → Editor → ℕ → Outcome
prompt_meta_key os ed key =
    if key == b'p'
    then done (open_finder os ed)
    else if key == b'a'
    then done (with_prompt ed (Field.move_start ed.prompt))
    else if key == b'e'
    then done (with_prompt ed (Field.move_end ed.prompt))
    else if key == b'b'
    then done (with_prompt ed (Field.move_prev_word ed.prompt))
    else if key == b'f'
    then done (with_prompt ed (Field.move_next_word ed.prompt))
    else if key == b'd'
    then done (with_prompt ed (Field.delete_next_word ed.prompt))
    else if key == key_backspace
    then done (with_prompt ed (Field.delete_prev_word ed.prompt))
    else done ed

-- `M-w`
unfoldable pub copy_command : Editor → Editor
copy_command ed =
    let (copied, ed') = copy_region ed in
    record (if copied
      then set_status ed' (codes "Copied") []
      else set_status ed' (codes "No region") []) { last_was_kill = false }

-- The text of the last yank is replaced by the entry of the kill ring before it.
unfoldable pub yank_pop : Editor → Editor
yank_pop ed =
    let ring = rotate ed.kill_ring in
    let cleared = record ed {
      kill_ring = ring;
      buffer =
          delete_region ed.buffer ed.yank_start.row ed.yank_start.col ed.yank_end.row
            ed.yank_end.col;
      frame = ed.yank_start;
    } in
    record ((yank_from cleared (current ring)).1) { last_was_yank = true }

-- `M-y`
unfoldable pub yank_pop_command : Editor → Outcome
unfolding yank_pop
yank_pop_command ed =
    let len = ed.kill_ring.len in
    let max = if ltb len kill_ring_max then len else kill_ring_max in
    if ed.last_was_yank && ltb 0 len
    then record {
      handled = true;
      editor = if ltb 1 max then yank_pop ed else ed;
      reset_kill = true;
      reset_yank = false;
    }
    else done ed

-- The branch for the text.
unfoldable pub edit_meta_key : Os → Editor → ℕ → Outcome
edit_meta_key os ed key =
    if key == b'f'
    then done (record ed { frame = move_next_word ed.buffer ed.frame })
    else if key == b'b'
    then done (record ed { frame = move_prev_word ed.buffer ed.frame })
    else if key == b'd'
    then killed (touch (kill_word_forward ed))
    else if key == key_backspace
    then killed (touch (kill_word_backward ed))
    else if key == b'w'
    then done (copy_command ed)
    else if key == b'y'
    then yank_pop_command ed
    else if key == b'p'
    then done (open_finder os ed)
    else passed ed

unfoldable pub handle_meta_key : Os → Editor → ℕ → Outcome
handle_meta_key os ed key =
    if ed.prompt_active
    then prompt_meta_key os ed (lower_key key)
    else edit_meta_key os ed (lower_key key)
