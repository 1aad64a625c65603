-- ===== src/Input/Bounded.antt =====
-- The commands and the finder of src/input.c and src/finder.c stay inside the arrays of `Editor`.
use ved.Common.{ℕ, ◌≤◌, ◌<◌, Bool, true, List, [], ◌++◌, arith, take, length, length-take}
use ved.Text.{codes}
use ved.Field.Bounds
use ved.Field.{Field}
use ved.Field.Bounds.{
  apply-IsValid, delete_range-IsValid, insert-IsValid, to_start, to_end, to_prev_char, to_next_char,
}
use ved.KillRing.{KillRing, kill_set}
use ved.KillRing.Laws
use ved.KillRing.Laws.{kill_set-IsValid, rotate-IsValid}
use ved.Editor.{Editor, touch, set_status}
use ved.Region.{
  get_region, copy_region, kill_text, kill_region, kill_newline_and_next, kill_columns,
  kill_word_forward, kill_word_before, kill_word_backward, yank_from, yank,
}
use ved.Input.Command.{
  open_line, kill_line, backspace, split_line, tab, delete_forward_command, type_key, mark_command,
  kill_region_command, yank_command, handle_command,
}

-- The laws of the parts, as predicates that stay shut.
unfoldable pub FieldFits : Field → Type 0
FieldFits f = Bounds.IsValid f

unfoldable pub RingFits : KillRing → Type 0
RingFits k = Laws.IsValid k

kill_set-RingFits :
    (k : KillRing) (text : List ℕ) (append : Bool) → RingFits k → RingFits (kill_set k text append)
unfolding RingFits
kill_set-RingFits k text append h = kill_set-IsValid k text append h

-- The prompt and the query of the finder stay in 256 bytes each, with their cursors in the text, the
-- kill ring in its 16 entries, the query of the search in 256 bytes, an escape sequence in 32, and
-- the status in 128, each with its terminator.
pub record Arrays (prompt query : Field) (ring : KillRing) (search escape status : List ℕ)
    : Type 0 where
  pub prompt_in : FieldFits prompt
  pub query_in : FieldFits query
  pub ring_in : RingFits ring
  pub search_in : length search < 256
  pub escape_in : length escape < 32
  pub status_in : length status ≤ 127

-- What stands in the arrays of the editor is inside them.
abbrev pub IsBounded : Editor → Type 0
IsBounded ed =
    Arrays ed.prompt ed.finder.query ed.kill_ring ed.isearch_query ed.esc_buf ed.status_msg

pub length-status : (text : List ℕ) → length (take 127 text) ≤ 127
length-status text = omega (arith, length-take {0} 127 text)

pub set_status-IsBounded :
    (ed : Editor) (prefix text : List ℕ) → IsBounded ed → IsBounded (set_status ed prefix text)
unfolding set_status
set_status-IsBounded ed prefix text b = ground (arith, length-status (prefix ++ text))

abbrev with_ring : Editor → KillRing → Editor
with_ring ed ring = record ed { kill_ring = ring }

module _ (ed : Editor) (b : IsBounded ed) where
  kill-IsBounded :
      (text : List ℕ) (append : Bool) → IsBounded (with_ring ed (kill_set ed.kill_ring text append))
  kill-IsBounded text append = record {
    prompt_in = b.prompt_in;
    query_in = b.query_in;
    ring_in = kill_set-RingFits ed.kill_ring text append b.ring_in;
    search_in = b.search_in;
    escape_in = b.escape_in;
    status_in = b.status_in;
  }

  kill_columns-IsBounded : (from to : ℕ) → IsBounded (kill_columns ed from to)
  unfolding kill_columns
  kill_columns-IsBounded from to = grind (arith, kill-IsBounded)

  kill_word_before-IsBounded : IsBounded (kill_word_before ed)
  unfolding kill_word_before
  kill_word_before-IsBounded = grind (arith, kill_columns-IsBounded)

kill_newline_and_next-IsBounded :
    (ed : Editor) → IsBounded ed → IsBounded (kill_newline_and_next ed)
unfolding kill_newline_and_next
kill_newline_and_next-IsBounded ed b = grind (arith, kill_set-RingFits)

module _ (ed : Editor) (b : IsBounded ed) where
  pub kill_word_forward-IsBounded : IsBounded (kill_word_forward ed)
  unfolding kill_word_forward
  kill_word_forward-IsBounded =
      grind (arith, kill_newline_and_next-IsBounded ed b, kill_columns-IsBounded ed b)

  pub kill_word_backward-IsBounded : IsBounded (kill_word_backward ed)
  unfolding kill_word_backward
  kill_word_backward-IsBounded =
      grind (arith, kill_word_before-IsBounded ed b, kill_newline_and_next-IsBounded)

  kill_line-IsBounded : IsBounded (kill_line ed)
  unfolding kill_line touch
  kill_line-IsBounded = grind (arith, kill_newline_and_next-IsBounded ed b, kill_set-RingFits)

module _ (ed : Editor) (b : IsBounded ed) where
  kill_region-IsBounded : IsBounded (kill_region ed).1
  unfolding kill_region get_region kill_text touch
  kill_region-IsBounded = grind (arith, kill_set-RingFits)

  pub copy_region-IsBounded : IsBounded (copy_region ed).1
  unfolding copy_region get_region
  copy_region-IsBounded = grind (arith, kill_set-RingFits)

  yank-IsBounded : IsBounded (yank ed).1
  unfolding yank yank_from touch
  yank-IsBounded = grind arith

  mark_command-IsBounded : IsBounded (mark_command ed)
  unfolding mark_command
  mark_command-IsBounded = grind (arith, set_status-IsBounded)

  pub handle_command-IsBounded : (key : ℕ) → IsBounded (handle_command ed key).editor
  unfolding handle_command kill_region_command yank_command open_line backspace split_line tab
      delete_forward_command type_key touch
  handle_command-IsBounded key = ground (
    arith,
    mark_command-IsBounded,
    kill_region-IsBounded,
    yank-IsBounded,
    kill_line-IsBounded ed b,
    set_status-IsBounded (record ed { pending_ctrl_x = true }) (codes "C-x") [],
    set_status-IsBounded (kill_region ed).1 (codes "Killed") [],
    set_status-IsBounded (kill_region ed).1 (codes "No region") [],
  )
