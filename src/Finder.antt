-- ===== src/Finder.antt =====
-- The finder of src/finder.c: its list, its query and its keys.
pub mod Bounds
pub mod Listed
use ved.Common.{
  ℕ, zero, suc, ◌+◌, ◌-◌, Bool, true, false, ◌&&◌, ◌||◌, not, Option, none, some, List, [], ◌∷◌,
  ltb, leb, ◌==◌, if◌then◌else◌, length, get_elem?,
}
use ved.Common.Int.{ℤ, pos, negsuc}
use ved.Text.{codes, bytes_eq}
use ved.Os.{Os}
use ved.Utf8.{next_boundary, prev_boundary}
use ved.Buffer
use ved.Field.{Field, blank}
use ved.Field
use ved.Paths.{path_join, project_root}
use ved.Ignore.{load_project}
use ved.Fuzzy.{matching_files}
use ved.Editor.{Editor, Finder, origin, set_status}

unfoldable pub update_matches : Finder → Finder
update_matches fd = record fd {
  matches = matching_files fd.query.bytes fd.files;
  selection = 0;
  scroll = 0;
}

-- `finder_list_rows`; the `int` difference is below 3 where it is negative, as it is here at 0.
unfoldable pub list_rows : Editor → ℕ
list_rows ed =
    let rows = ed.screen_rows - 4 in if ltb rows 3 then 3 else (if ltb 8 rows then 8 else rows)

-- `finder_modal_width`; here too a negative `int` difference counts as 0.
unfoldable pub modal_width : Editor → ℕ
modal_width ed =
    let wide = ed.screen_cols - 6 in
    let width = if ltb 70 wide then 70 else wide in
    let narrow = if ltb width 30 then ed.screen_cols - 2 else width in
    if ltb narrow 10 then 10 else narrow

-- `finder_adjust_scroll`, with `finder_list_rows` of the screen.
unfoldable pub adjust_scroll : ℕ → Finder → Finder
adjust_scroll rows fd =
    if length fd.matches == 0
    then record fd { scroll = 0 }
    else if ltb fd.selection fd.scroll
    then record fd { scroll = fd.selection }
    else if leb (fd.scroll + rows) fd.selection
    then record fd { scroll = fd.selection - rows + 1 }
    else fd

-- The new selection of `finder_move_selection`.
unfoldable pub moved_selection : ℤ → ℕ → ℕ → ℕ
moved_selection (negsuc n) sel count = if ltb sel (suc n) then 0 else sel - suc n
moved_selection (pos zero) sel count = sel
moved_selection (pos (suc n)) sel count =
    if ltb (count - 1) (sel + suc n) then count - 1 else sel + suc n

unfoldable pub move_selection : ℕ → ℤ → Finder → Finder
unfolding moved_selection adjust_scroll
move_selection rows delta fd =
    if not fd.active || length fd.matches == 0
    then fd
    else adjust_scroll rows
        (record fd { selection = moved_selection delta fd.selection (length fd.matches) })

-- The edits of the query: each that changes it makes the matches anew.
unfoldable pub query_delete_range : Finder → ℕ → ℕ → Finder
query_delete_range fd start end =
    if Field.is_range fd.query start end
    then update_matches (record fd { query = Field.delete_range fd.query start end })
    else fd

unfoldable pub query_backspace : Finder → Finder
query_backspace fd =
    if ltb 0 fd.query.col
    then query_delete_range fd (prev_boundary fd.query.bytes fd.query.col) fd.query.col
    else fd

unfoldable pub query_delete_forward : Finder → Finder
query_delete_forward fd =
    if leb (length fd.query.bytes) fd.query.col
    then fd
    else query_delete_range fd fd.query.col
        (next_boundary fd.query.bytes (length fd.query.bytes) fd.query.col)

unfoldable pub query_delete_prev_word : Finder → Finder
query_delete_prev_word fd =
    if ltb 0 fd.query.col
    then query_delete_range fd (Field.prev_word_col fd.query) fd.query.col
    else fd

unfoldable pub query_kill_to_end : Finder → Finder
query_kill_to_end fd = query_delete_range fd fd.query.col (length fd.query.bytes)

unfoldable pub query_insert : Finder → ℕ → Finder
query_insert fd key =
    if leb Field.field_size (length fd.query.bytes + 1)
    then fd
    else update_matches (record fd { query = Field.insert fd.query key })

-- `finder_open_file` once the path of the selected file, from the root and whole, is known.
unfoldable pub open_path : Os → List ℕ → List ℕ → Editor → Editor
open_path os name full_path ed =
    if os.access_ok full_path
    then (let loaded = Buffer.load_file os ed.buffer full_path in
        set_status
          (record ed {
            buffer = Buffer.init_syntax os loaded loaded.file_path;
            dirty = false;
            frame = origin;
            row_offset = 0;
            col_offset = 0;
          })
          (codes "Opened ") name)
    else set_status ed (codes "Open failed: ") os.strerror

-- The root as a string; the finder is opened with one.
abbrev pub root_bytes : Option (List ℕ) → List ℕ
root_bytes none = []
root_bytes (some root) = root

-- The selected file, where the list of matches and the list of files have one.
unfoldable pub selected_file : Finder → Option (List ℕ)
selected_file fd = elim (get_elem? fd.matches fd.selection) [
  | none ↦ none
  | some index ↦ get_elem? fd.files index
]

unfoldable pub open_file : Os → Editor → Editor
unfolding open_path selected_file
open_file os ed = elim (selected_file ed.finder) [
  | none ↦ ed
  | some name ↦ open_path os name (path_join (root_bytes ed.finder.project_root) name) ed
]

-- The files of the finder for a root: kept if it is the old root and there are any.
unfoldable pub files_for : Os → Finder → List ℕ → List (List ℕ)
files_for os fd root = elim fd.project_root [
  | none ↦ load_project os root
  | some old ↦
      if bytes_eq old root && not (length fd.files == 0) then fd.files else load_project os root
]

-- `finder_open`
unfoldable pub open_finder : Os → Editor → Editor
unfolding files_for update_matches
open_finder os ed = elim (project_root os ed.buffer.file_path) [
  | none ↦ set_status ed (codes "No project root") []
  | some root ↦ record ed {
    finder = update_matches (record ed.finder {
      active = true;
      query = blank;
      project_root = some root;
      files = files_for os ed.finder root;
    });
  }
]

unfoldable pub close : Editor → Editor
close ed = record ed { finder = record ed.finder { active = false } }

abbrev with_finder : Editor → Finder → Editor
with_finder ed fd = record ed { finder = fd }

abbrev with_query : Editor → Field → Editor
with_query ed query = record ed { finder = record ed.finder { query = query } }

-- `CTRL_KEY(k)` of a letter, as a number.
abbrev pub ctrl : ℕ → ℕ
ctrl k = k - 96

abbrev pub key_backspace : ℕ
key_backspace = 127

unfoldable pub finder_handle_key : Os → Editor → ℕ → Editor
unfolding move_selection query_backspace query_delete_forward query_delete_prev_word
finder_handle_key os ed key =
    if not ed.finder.active
    then ed
    else if key == ctrl b'g'
    then close ed
    else if key == 13
    then close (open_file os ed)
    else if key == key_backspace
    then with_finder ed (query_backspace ed.finder)
    else if key == ctrl b'h'
    then with_finder ed (query_backspace ed.finder)
    else if key == ctrl b'p'
    then with_finder ed (move_selection (list_rows ed) (negsuc 0) ed.finder)
    else if key == ctrl b'n'
    then with_finder ed (move_selection (list_rows ed) (pos 1) ed.finder)
    else if key == ctrl b'a'
    then with_query ed (Field.move_start ed.finder.query)
    else if key == ctrl b'e'
    then with_query ed (Field.move_end ed.finder.query)
    else if key == ctrl b'b'
    then with_query ed (Field.move_prev_char ed.finder.query)
    else if key == ctrl b'f'
    then with_query ed (Field.move_next_char ed.finder.query)
    else if key == ctrl b'd'
    then with_finder ed (query_delete_forward ed.finder)
    else if key == ctrl b'w'
    then with_finder ed (query_delete_prev_word ed.finder)
    else if key == ctrl b'k'
    then with_finder ed (query_kill_to_end ed.finder)
    else if leb 32 key
    then with_finder ed (query_insert ed.finder key)
    else ed
