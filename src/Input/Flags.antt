-- ===== src/Input/Flags.antt =====
-- What the handlers of src/input.c give back: whether the key was handled, the editor after, and
-- the flags `reset_kill` and `reset_yank`, which `editor_process_key` applies at its label `done`.
use ved.Common.{Bool, true, false, if◌then◌else◌}
use ved.Editor.{Editor}

pub record Outcome : Type 0 where
  pub handled : Bool
  pub editor : Editor
  pub reset_kill : Bool
  pub reset_yank : Bool

-- Handled, with both flags as `editor_process_key` sets them at its start.
abbrev pub done : Editor → Outcome
done ed = record { handled = true; editor = ed; reset_kill = true; reset_yank = true }

abbrev pub passed : Editor → Outcome
passed ed = record { handled = false; editor = ed; reset_kill = true; reset_yank = true }

-- A kill: the flag of the last kill is set and stays.
abbrev pub killed : Editor → Outcome
killed ed = record {
  handled = true;
  editor = record ed { last_was_kill = true };
  reset_kill = false;
  reset_yank = true;
}

-- A yank: the flag of the last yank is set and stays.
abbrev pub yanked : Editor → Outcome
yanked ed = record {
  handled = true;
  editor = record ed { last_was_yank = true };
  reset_kill = true;
  reset_yank = false;
}

-- The label `done`.
unfoldable pub finish : Outcome → Editor
finish o = record o.editor {
  last_was_kill = if o.reset_kill then false else o.editor.last_was_kill;
  last_was_yank = if o.reset_yank then false else o.editor.last_was_yank;
}
