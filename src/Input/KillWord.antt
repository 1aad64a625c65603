-- ===== src/Input/KillWord.antt =====
-- What `M-d` and `M-Backspace` of src/input.c take out of a line, and what they kill.
use ved.Common.{◌≡◌, true, false}
use ved.Os.{Os}
use ved.Editor.{Editor}
use ved.Input.Flags.{Outcome}

-- The handling of a meta key that kills: the text counts as changed and the command as a kill.
abbrev pub CountsAsKill : Outcome → Type 0
CountsAsKill o =
    (o.handled ≡ true)
    × (o.editor.dirty ≡ true)
    × (o.editor.buffer.syntax_dirty ≡ true)
    × (o.editor.last_was_kill ≡ true)
    × (o.reset_kill ≡ false)
