-- ===== src/Input/Prompt.antt =====
-- The keys of `editor_process_key` in src/input.c while the prompt is open, and the saving.
use ved.Common.{
  ℕ, Bool, true, false, Option, none, some, List, [], ◌∷◌, leb, ◌==◌, if◌then◌else◌, length,
}
use ved.Text.{codes}
use ved.Os.{Os}
use ved.Buffer.{write_file, detect_mode}
use ved.Field.{Field, blank}
use ved.Field
use ved.Editor.{Editor, set_status}
use ved.Finder.{ctrl, key_backspace}
use ved.Input.Meta.{with_prompt}

-- What a call of `buffer_write_file` leaves in the file, if the file could be opened.
abbrev pub record_write : Editor → List ℕ → Option (List ℕ) → Editor
record_write ed path none = ed
record_write ed path (some contents) = record ed { saved = (path, contents) ∷ ed.saved }

-- The file is written to this path, which becomes the buffer's path if all went well and if
-- `rename` says so.
unfoldable pub save : Os → Editor → List ℕ → Bool → Editor
save os ed path rename =
    let (written, contents) = write_file os ed.buffer path in
    let after = record_write ed path contents in
    let named =
      if rename
      then record after.buffer { file_path = some path; mode = detect_mode path }
      else after.buffer in
    if written
    then set_status (record after { buffer = named; dirty = false }) (codes "Saved") []
    else set_status after (codes "Save failed: ") os.strerror

-- `editor_prompt_save_as`
unfoldable pub prompt_save_as : Editor → Editor
prompt_save_as ed = record ed { prompt_active = true; prompt_save_as = true; prompt = blank }

-- The return key: the file is saved under the name in the prompt.
unfoldable pub prompt_accept : Os → Editor → Editor
unfolding save
prompt_accept os ed =
    let accepted =
      if length ed.prompt.bytes == 0
      then set_status ed (codes "No file name") []
      else (if ed.prompt_save_as then save os ed ed.prompt.bytes true else ed) in
    record accepted {
      prompt_active = false;
      prompt_save_as = false;
      prompt = record accepted.prompt { col = 0 };
    }

unfoldable pub prompt_cancel : Editor → Editor
prompt_cancel ed =
    set_status
      (record ed {
        prompt_active = false;
        prompt_save_as = false;
        prompt = record ed.prompt { col = 0 };
      })
      (codes "Save canceled") []

unfoldable pub prompt_handle_key : Os → Editor → ℕ → Editor
prompt_handle_key os ed key =
    if key == 27
    then prompt_cancel ed
    else if key == 13
    then prompt_accept os ed
    else if key == ctrl b'a'
    then with_prompt ed (Field.move_start ed.prompt)
    else if key == ctrl b'e'
    then with_prompt ed (Field.move_end ed.prompt)
    else if key == ctrl b'b'
    then with_prompt ed (Field.move_prev_char ed.prompt)
    else if key == ctrl b'f'
    then with_prompt ed (Field.move_next_char ed.prompt)
    else if key == ctrl b'd'
    then with_prompt ed (Field.delete_forward ed.prompt)
    else if key == ctrl b'h'
    then with_prompt ed (Field.delete_backward ed.prompt)
    else if key == ctrl b'w'
    then with_prompt ed (Field.delete_prev_word ed.prompt)
    else if key == ctrl b'k'
    then with_prompt ed (Field.kill_to_end ed.prompt)
    else if key == key_backspace
    then with_prompt ed (Field.delete_backward ed.prompt)
    else if leb 32 key
    then with_prompt ed (Field.insert ed.prompt key)
    else ed
