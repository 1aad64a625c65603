-- ===== src/Buffer.antt =====
-- src/buffer.c: the text of the editor as an array of lines, and its file.
-- A line is the list of its bytes, without the terminator; `line_count` is the number of lines.
pub mod Rows
pub mod Refine
pub mod Delete
pub mod Counts
pub mod Clean
pub mod CleanFile
pub mod Saved
pub mod Reload
use ved.Common.{
  ℕ, zero, suc, ◌+◌, ◌-◌, Bool, true, false, ◌&&◌, ◌||◌, Option, none, some, List, [], ◌∷◌, ◌++◌,
  ltb, leb, ◌==◌, if◌then◌else◌, length, get_or, set, take, drop,
}
use ved.Buffer.Rows.{insert_row, remove_rows}
use ved.Os.{Os}
use ved.Text.{codes, bytes_eq, c_string, after_last, getlines}
use ved.Utf8.{next_boundary, prev_boundary}

pub data BufferMode : Type 0 where
  c_mode makefile_mode : BufferMode

-- `Buffer`; of the tree-sitter handles `ts_tree`, as the text that it was parsed from.
pub record Buffer : Type 0 where
  pub lines : List (List ℕ)
  pub file_path : Option (List ℕ)
  pub mode : BufferMode
  pub syntax_enabled : Bool
  pub syntax_dirty : Bool
  pub tree : Option (List ℕ)

abbrev pub line_count : Buffer → ℕ
line_count buf = length buf.lines

-- `buf->lines[row]`, empty where the source would read outside the array.
abbrev pub line_at : Buffer → ℕ → List ℕ
line_at buf row = get_or buf.lines row []

-- `path` is `none` for NULL.
unfoldable pub has_c_extension : Option (List ℕ) → Bool
has_c_extension none = false
has_c_extension (some path) = elim (after_last b'.' path) [
  | none ↦ false
  | some ext ↦ bytes_eq ext (b'c' ∷ []) || bytes_eq ext (b'h' ∷ [])
]

unfoldable pub filename : List ℕ → List ℕ
filename path = elim (after_last b'/' path) [ none ↦ path | some name ↦ name ]

unfoldable pub is_makefile : List ℕ → Bool
unfolding filename
is_makefile path =
    bytes_eq (filename path) (codes "makefile") || bytes_eq (filename path) (codes "Makefile")

unfoldable pub detect_mode : List ℕ → BufferMode
detect_mode path = if is_makefile path then makefile_mode else c_mode

unfoldable pub init : Buffer
init = record {
  lines = [] ∷ [];
  file_path = none;
  mode = c_mode;
  syntax_enabled = false;
  syntax_dirty = false;
  tree = none;
}

-- `buffer_clear`: the old contents are freed and the buffer is as new.
unfoldable pub clear : Buffer → Buffer
unfolding init
clear buf = init

unfoldable pub append_line : Buffer → List ℕ → Buffer
append_line buf line = record buf { lines = buf.lines ++ c_string line ∷ [] }

-- `while (len > 0 && (line[len - 1] == '\n' || line[len - 1] == '\r')) line[--len] = '\0';`
unfoldable pub trim_newline : List ℕ → List ℕ
trim_newline [] = []
trim_newline (x ∷ xs) = elim (trim_newline xs) [
  | [] ↦ if x == 10 || x == 13 then [] else x ∷ []
  | y ∷ ys ↦ x ∷ y ∷ ys
]

-- The `getline` loop of `buffer_load_file`.
unfoldable pub append_lines : Buffer → List (List ℕ) → Buffer
append_lines buf [] = buf
append_lines buf (raw ∷ rest) = append_lines (append_line buf (trim_newline raw)) rest

unfoldable pub load_file : Os → Buffer → List ℕ → Buffer
unfolding clear append_lines append_line
load_file os buf path = elim (os.fopen path) [
  | none ↦ buf
  | some contents ↦
      let loaded = append_lines (record (clear buf) { lines = [] }) (getlines contents) in
      let kept : Buffer = elim loaded.lines [ [] ↦ append_line loaded [] | l ∷ ls ↦ loaded ] in
      record kept { file_path = some path; mode = detect_mode path }
]

unfoldable pub init_syntax : Os → Buffer → Option (List ℕ) → Buffer
init_syntax os buf path =
    let enabled = has_c_extension path in
    record buf { syntax_enabled = enabled && os.parser_ok && os.query_ok; syntax_dirty = enabled }

unfoldable pub line_length : Buffer → ℕ → ℕ
line_length buf row = if leb (line_count buf) row then 0 else length (line_at buf row)

-- One checked `write`: whether all bytes went out, and what the file holds.
unfoldable pub put : Os → List ℕ → List ℕ → Bool × List ℕ
put os out chunk = elim (os.write out chunk) [
  | none ↦ (false, out)
  | some n ↦ (n == length chunk, out ++ take n chunk)
]

-- The loop of `buffer_write_file`.
unfoldable pub write_lines : Os → List ℕ → List (List ℕ) → Bool × List ℕ
unfolding put
write_lines os out [] = (true, out)
write_lines os out (line ∷ rest) =
    let (sent, out') : Bool × List ℕ =
      if ltb 0 (length line) then put os out line else (true, out) in
    let (ended, out'') = put os out' (10 ∷ []) in
    let later = write_lines os out'' rest in
    if sent then (if ended then later else (false, out'')) else (false, out')

-- `buffer_write_file`: the result, and what the file holds if it could be opened.
unfoldable pub write_file : Os → Buffer → List ℕ → Bool × Option (List ℕ)
unfolding write_lines
write_file os buf path =
    let (written, out) = write_lines os [] buf.lines in
    if os.open_ok path then (written && os.close_ok path, some out) else (false, none)

-- `if (col > len) col = len;`
abbrev pub clamp : ℕ → ℕ → ℕ
clamp len col = if ltb len col then len else col

unfoldable pub insert_char : Buffer → ℕ → ℕ → ℕ → Buffer
insert_char buf row col ch =
    if leb (line_count buf) row
    then buf
    else let c = clamp (line_length buf row) col in
      let line = line_at buf row in
      record buf { lines = set buf.lines row (take c line ++ ch ∷ drop c line) }

unfoldable pub insert_newline : Buffer → ℕ → ℕ → Buffer
insert_newline buf row col =
    if leb (line_count buf) row
    then buf
    else let c = clamp (line_length buf row) col in
      let line = line_at buf row in
      record buf { lines = insert_row (set buf.lines row (take c line)) (suc row) (drop c line) }

unfoldable pub insert_tab : Buffer → ℕ → ℕ → Buffer
unfolding insert_char
insert_tab buf row col = elim buf.mode [
  | makefile_mode ↦ insert_char buf row col 9
  | c_mode ↦ insert_char (insert_char buf row col 32) row (suc col) 32
]

-- The line `upper` takes the line below it in.
abbrev pub join_rows : Buffer → ℕ → Buffer
join_rows buf upper = record buf {
  lines =
      remove_rows (set buf.lines upper (line_at buf upper ++ line_at buf (suc upper))) (suc upper)
        (suc (suc upper));
}

unfoldable pub delete_char : Buffer → ℕ → ℕ → Buffer
delete_char buf row zero = elim row [
  | zero ↦ buf
  | suc upper ↦ if leb (line_count buf) (suc upper) then buf else join_rows buf upper
]
delete_char buf row (suc k) =
    if leb (line_count buf) row
    then buf
    else let line = line_at buf row in
      let c = clamp (line_length buf row) (suc k) in
      let start = prev_boundary line c in
      record buf { lines = set buf.lines row (take start line ++ drop c line) }

-- The memory of a line of `buffer_delete_char` after its `memmove(line + start, line + col,
-- len - col + 1)`: the bytes behind the new terminator are what stood there before.
unfoldable pub memory_after_delete : List ℕ → ℕ → ℕ → List ℕ
memory_after_delete line start col =
    let memory = line ++ 0 ∷ [] in
    take start memory ++ drop col memory ++ drop (start + (length memory - col)) memory

unfoldable pub delete_forward : Buffer → ℕ → ℕ → Buffer
delete_forward buf row col =
    if leb (line_count buf) row
    then buf
    else let len = line_length buf row in
      let c = clamp len col in
      let line = line_at buf row in
      if c == len
      then (if leb (line_count buf) (suc row) then buf else join_rows buf row)
      else record buf {
        lines = set buf.lines row (take c line ++ drop (next_boundary line len c) line);
      }

unfoldable pub delete_range : Buffer → ℕ → ℕ → ℕ → Buffer
delete_range buf row start end =
    if leb (line_count buf) row
    then buf
    else let s = clamp (line_length buf row) start in
      let e = clamp (line_length buf row) end in
      let line = line_at buf row in
      if leb e s then buf else record buf { lines = set buf.lines row (take s line ++ drop e line) }

-- `buffer_delete_region` after its guard and its swap.
unfoldable pub delete_ordered : Buffer → ℕ → ℕ → ℕ → ℕ → Buffer
unfolding delete_range
delete_ordered buf start_row start_col end_row end_col =
    if start_row == end_row
    then delete_range buf start_row start_col end_col
    else let s = clamp (line_length buf start_row) start_col in
      let e = clamp (line_length buf end_row) end_col in
      let merged = take s (line_at buf start_row) ++ drop e (line_at buf end_row) in
      record buf {
        lines = remove_rows (set buf.lines start_row merged) (suc start_row) (suc end_row);
      }

unfoldable pub delete_region : Buffer → ℕ → ℕ → ℕ → ℕ → Buffer
unfolding delete_ordered
delete_region buf start_row start_col end_row end_col =
    if leb (line_count buf) start_row || leb (line_count buf) end_row
    then buf
    else if ltb end_row start_row || (start_row == end_row && ltb end_col start_col)
    then delete_ordered buf end_row end_col start_row start_col
    else delete_ordered buf start_row start_col end_row end_col
