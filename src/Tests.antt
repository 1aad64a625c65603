-- ===== src/Tests.antt =====
-- Runs of the model at concrete inputs, and the values that they share.
mod Texts
mod Lines
mod Editors
mod Files
mod Screen
mod Saves
mod Keys
mod Processes
mod Searches
use ved.Common.{◌<◌, ◌≢◌, arith, ℕ, none, true, false, List, [], ◌∷◌}
use ved.Text.{codes}
use ved.Os.{Os, special}
use ved.Buffer.{Buffer}
use ved.Buffer
use ved.Frame.{Frame}
use ved.Editor.{Editor, editor_create}

-- A system without files.
abbrev pub bare_os : Os
bare_os = record {
  fopen = λ path. none;
  open_ok = λ path. true;
  write = λ out chunk. none;
  close_ok = λ path. true;
  strerror = [];
  access_ok = λ path. true;
  parser_ok = true;
  query_ok = true;
  parses = λ text. true;
  captures = λ text from to. [];
  realpath = λ path. none;
  getcwd = none;
  tree_at = λ path. special;
  fnmatch = λ pattern name flag. true;
}

-- "ab", "cé", "d"
abbrev pub rows : List (List ℕ)
rows = codes "ab" ∷ (99 ∷ 0xc3 ∷ 0xa9 ∷ []) ∷ codes "d" ∷ []

abbrev pub doc : Buffer
doc = record Buffer.init { lines = rows }

abbrev pub pos_at : ℕ → ℕ → Frame
pos_at row col = record { row = row; col = col }

abbrev pub started : Editor
started = editor_create bare_os none 24 80

pub apart : (c n : ℕ) → n < c → c ≢ n
apart c n h e = omega arith
