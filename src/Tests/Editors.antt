-- ===== src/Tests/Editors.antt =====
-- Keys, the kill ring and the lines of input.
use ved.Common.{ℕ, ◌≡◌, refl, false, none, List, [], ◌∷◌, ◌++◌, arith}
use ved.Text.{codes}
use ved.Buffer.{line_at}
use ved.Field.{Field}
use ved.Field.Bounds
use ved.Frame.Chars.{at}
use ved.KillRing.{KillRing, empty, kill_set}
use ved.KillRing.Laws.{IsValid, empty-IsValid, kill_set-IsValid}
use ved.Editor.{Editor, esc_none, esc_seen, editor_create, empty_finder}
use ved.Input.{editor_process_key, process_keys, unescaped_key, plain_key, text_key}
use ved.Input.Flags.{finish}
use ved.Input.Escape.{handle_escape}
use ved.Isearch.{isearch_handle_key}
use ved.Region.{yank}
use ved.Input.Command.{backspace, handle_command, yank_command}
use ved.Input.Quiet.{IsQuiet}
use ved.Input.QuietEscape.{editor_process_key-IsQuiet, editor_create-IsQuiet}
use ved.Input.YankPop.{yank_pop_never}
use ved.Input.Backspace.{backspace-join}
use ved.Tests.{bare_os, doc, pos_at, started}

-- A yank, and the escape before `y`.
abbrev keys : List ℕ
keys = 25 ∷ 27 ∷ []

abbrev behind_escape : Editor
behind_escape = process_keys bare_os (editor_create bare_os none 24 80) keys

reading : behind_escape.esc_state ≡ esc_seen
unfolding process_keys editor_process_key handle_escape unescaped_key isearch_handle_key plain_key
    finish editor_create empty_finder text_key handle_command yank_command yank empty
reading = refl

no_prompt : behind_escape.prompt_active ≡ false
unfolding process_keys editor_process_key handle_escape unescaped_key isearch_handle_key plain_key
    finish editor_create empty_finder text_key handle_command yank_command yank empty
no_prompt = refl

yank_pop_never_example :
    editor_process_key bare_os behind_escape b'y' ≡ record behind_escape { esc_state = esc_none }
yank_pop_never_example = yank_pop_never bare_os none 24 80 keys reading no_prompt

editor_process_key-IsQuiet_example : IsQuiet (editor_process_key bare_os started 27)
editor_process_key-IsQuiet_example =
    editor_process_key-IsQuiet bare_os started 27 (editor_create-IsQuiet bare_os none 24 80)

abbrev editing : Editor
editing = record started { buffer = doc; frame = pos_at 1 0 }

backspace-join_example :
    let after = backspace (record editing { frame = at 1 0 }) in
    (line_at after.buffer 0 ≡ codes "ab" ++ 99 ∷ 0xc3 ∷ 0xa9 ∷ []) × (after.frame ≡ at 0 5)
backspace-join_example = backspace-join editing 0 (omega arith)

-- The ring after one kill.
abbrev ring : KillRing
ring = kill_set empty (codes "one") false

ring-IsValid : IsValid ring
ring-IsValid = kill_set-IsValid empty (codes "one") false empty-IsValid

abbrev typed : Field
typed = record { bytes = codes "ab"; col = 1 }

typed-IsValid : Bounds.IsValid typed
typed-IsValid = record { fits = omega arith; col_in = omega arith }
