-- ===== src/Input.antt =====
-- `editor_process_key` of src/input.c: one byte from the terminal, through the escape sequences,
-- the finder, the search, the prompt and the commands.
pub mod Flags
pub mod Meta
pub mod Escape
pub mod Prompt
pub mod Command
pub mod Quiet
pub mod QuietEscape
pub mod YankPop
pub mod Backspace
pub mod Placed
pub mod Saving
pub mod SearchCancel
pub mod KillNewline
pub mod KillWord
pub mod PlacedEscape
pub mod PlacedSearch
pub mod PlacedKeys
pub mod Bounded
pub mod Clean
pub mod CleanEscape
pub mod CleanKeys
pub mod BoundedEscape
pub mod BoundedSearch
pub mod BoundedKeys
use ved.Common.{
  ℕ, Bool, true, false, ◌&&◌, ◌||◌, not, Option, none, some, List, [], ◌∷◌, ltb, leb, ◌==◌,
  if◌then◌else◌, length,
}
use ved.Text.{codes}
use ved.Os.{Os}
use ved.Field.{blank}
use ved.Field
use ved.Editor.{Editor, esc_none, esc_seen, set_status}
use ved.Finder.{ctrl, finder_handle_key}
use ved.Isearch.{isearch_begin, isearch_handle_key}
use ved.Input.Flags.{done, finish}
use ved.Input.Escape.{handle_escape}
use ved.Input.Prompt.{prompt_handle_key}
use ved.Input.Command.{save_command, handle_command}

-- `C-g`
unfoldable pub cancel : Editor → Editor
cancel ed =
    set_status
      (record ed {
        pending_ctrl_x = false;
        esc_state = esc_none;
        esc_buf = [];
        prompt_active = false;
        prompt_save_as = false;
        prompt = blank;
        mark_active = false;
        last_was_kill = false;
        last_was_yank = false;
      })
      (codes "Canceled") []

-- A key of the text, when no `C-x` is pending or it was not one of the keys behind it.
unfoldable pub text_key : Editor → ℕ → Editor
text_key ed key =
    if key == ctrl b's'
    then finish (done (isearch_begin ed true))
    else if key == ctrl b'r'
    then finish (done (isearch_begin ed false))
    else finish (handle_command ed key)

-- The keys behind `C-x`; any other key is a key of the text.
unfoldable pub ctrl_x_key : Os → Editor → ℕ → Editor
ctrl_x_key os ed key =
    let ed' = record ed { pending_ctrl_x = false } in
    if key == ctrl b's'
    then finish (done (save_command os ed'))
    else if key == ctrl b'c'
    then record ed' { should_exit = true }
    else text_key ed' key

-- `editor_process_key` behind the search: the editor is as the search left it.
unfoldable pub plain_key : Os → Editor → ℕ → Editor
plain_key os ed key =
    if key == 27
    then finish (done (record ed { esc_state = esc_seen }))
    else if key == ctrl b'g'
    then cancel ed
    else if ed.prompt_active
    then prompt_handle_key os ed key
    else if ed.pending_ctrl_x
    then ctrl_x_key os ed key
    else text_key ed key

-- `editor_process_key` behind the escape sequences.
unfoldable pub unescaped_key : Os → Editor → ℕ → Editor
unescaped_key os ed key =
    let (searched, ed') = isearch_handle_key ed key in
    if ed.finder.active
    then finish (done (finder_handle_key os ed key))
    else (if searched then finish (done ed') else plain_key os ed' key)

unfoldable pub editor_process_key : Os → Editor → ℕ → Editor
editor_process_key os ed key =
    let o = handle_escape os ed key in if o.handled then finish o else unescaped_key os o.editor key

-- The loop of `editor_loop` in src/core.c over the bytes of one `read`.
unfoldable pub process_keys : Os → Editor → List ℕ → Editor
process_keys os ed [] = ed
process_keys os ed (key ∷ keys) = process_keys os (editor_process_key os ed key) keys
