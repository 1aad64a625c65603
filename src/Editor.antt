-- ===== src/Editor.antt =====
-- The state of src/editor.h, its initial value (src/core.c), and the parts that more than one
-- command of src/input.c uses.
use ved.Common.{ℕ, Bool, true, false, Option, none, some, List, [], ◌++◌, take}
use ved.Text.{codes}
use ved.Os.{Os}
use ved.Buffer.{Buffer}
use ved.Buffer
use ved.Frame.{Frame}
use ved.KillRing.{KillRing}
use ved.KillRing
use ved.Field.{Field, blank}

pub data EscState : Type 0 where
  esc_none esc_seen esc_csi esc_mouse : EscState

-- `Finder` of src/editor.h; `query_len`, `file_count` and `match_count` are the lengths.
pub record Finder : Type 0 where
  pub active : Bool
  pub query : Field
  pub project_root : Option (List ℕ)
  pub files : List (List ℕ)
  pub matches : List ℕ
  pub selection : ℕ
  pub scroll : ℕ

-- `Editor`, without the terminal's settings. The lengths of the strings are those of the lists. The
-- last two fields are what the process does outside: the messages that it writes for the terminal's
-- clipboard, and the contents of the files that it writes, newest first.
pub record Editor : Type 0 where
  pub screen_rows : ℕ
  pub screen_cols : ℕ
  pub row_offset : ℕ
  pub col_offset : ℕ
  pub buffer : Buffer
  pub frame : Frame
  pub dirty : Bool
  pub should_exit : Bool
  pub pending_ctrl_x : Bool
  pub esc_state : EscState
  pub esc_buf : List ℕ
  pub prompt_active : Bool
  pub prompt_save_as : Bool
  pub prompt : Field
  pub isearch_active : Bool
  pub isearch_forward : Bool
  pub isearch_has_match : Bool
  pub isearch_query : List ℕ
  pub isearch_origin : Frame
  pub finder : Finder
  pub kill_ring : KillRing
  pub last_was_kill : Bool
  pub last_was_yank : Bool
  pub yank_start : Frame
  pub yank_end : Frame
  pub mark_active : Bool
  pub mark : Frame
  pub status_msg : List ℕ
  pub clipboard : List (List ℕ)
  pub saved : List (List ℕ × List ℕ)

abbrev pub origin : Frame
origin = record { row = 0; col = 0 }

-- `snprintf(ed->status_msg, sizeof(ed->status_msg), "%s%s", prefix, text)`: at most 127 bytes.
unfoldable pub set_status : Editor → List ℕ → List ℕ → Editor
set_status ed prefix text = record ed { status_msg = take 127 (prefix ++ text) }

-- An edit makes the buffer dirty, for the file and for the parser.
unfoldable pub touch : Editor → Editor
touch ed = record ed { dirty = true; buffer = record ed.buffer { syntax_dirty = true } }

unfoldable pub empty_finder : Finder
empty_finder = record {
  active = false;
  query = blank;
  project_root = none;
  files = [];
  matches = [];
  selection = 0;
  scroll = 0;
}

-- `editor_create` with the file of `argv[1]`, if there is one, and the window's size.
unfoldable pub editor_create : Os → Option (List ℕ) → ℕ → ℕ → Editor
unfolding empty_finder Buffer.init Buffer.load_file Buffer.init_syntax KillRing.empty
editor_create os path rows cols =
    let fresh = Buffer.init in
    let loaded : Buffer = elim path [ none ↦ fresh | some name ↦ Buffer.load_file os fresh name ] in
    record {
      screen_rows = rows;
      screen_cols = cols;
      row_offset = 0;
      col_offset = 0;
      buffer = Buffer.init_syntax os loaded loaded.file_path;
      frame = origin;
      dirty = false;
      should_exit = false;
      pending_ctrl_x = false;
      esc_state = esc_none;
      esc_buf = [];
      prompt_active = false;
      prompt_save_as = false;
      prompt = blank;
      isearch_active = false;
      isearch_forward = true;
      isearch_has_match = false;
      isearch_query = [];
      isearch_origin = origin;
      finder = empty_finder;
      kill_ring = KillRing.empty;
      last_was_kill = false;
      last_was_yank = false;
      yank_start = origin;
      yank_end = origin;
      mark_active = false;
      mark = origin;
      status_msg = codes "C-x C-s to save";
      clipboard = [];
      saved = [];
    }
