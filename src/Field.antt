-- ===== src/Field.antt =====
-- A line of input with a cursor: the prompt of src/input.c and the query of src/finder.c, which
-- edit their arrays of 256 bytes with the same code. The text is what stands before the terminator.
pub mod Bounds
use ved.Common.{
  ℕ, zero, suc, ◌+◌, Bool, ◌&&◌, List, [], ◌∷◌, ◌++◌, ltb, leb, if◌then◌else◌, length, take, drop,
}
use ved.Utf8.{next_boundary, prev_boundary}
use ved.Scan.{is_word_char, not_word, not_space, scan_forward, scan_back}

-- `sizeof(ed->prompt_buf)`
abbrev pub field_size : ℕ
field_size = 256

pub record Field : Type 0 where
  pub bytes : List ℕ
  pub col : ℕ

abbrev pub blank : Field
blank = record { bytes = []; col = 0 }

unfoldable pub move_start : Field → Field
move_start f = record f { col = 0 }

unfoldable pub move_end : Field → Field
move_end f = record f { col = length f.bytes }

unfoldable pub move_prev_char : Field → Field
move_prev_char f = record f { col = prev_boundary f.bytes f.col }

unfoldable pub move_next_char : Field → Field
move_next_char f = record f { col = next_boundary f.bytes (length f.bytes) f.col }

unfoldable pub move_prev_word : Field → Field
move_prev_word f = record f {
  col = scan_back not_word f.bytes (scan_back is_word_char f.bytes f.col);
}

unfoldable pub move_next_word : Field → Field
move_next_word f = record f {
  col =
      scan_forward not_word f.bytes (length f.bytes)
        (scan_forward is_word_char f.bytes (length f.bytes) f.col);
}

-- Whether the range is one that can be deleted.
abbrev pub is_range : Field → ℕ → ℕ → Bool
is_range f start end = ltb start end && leb end (length f.bytes)

unfoldable pub delete_range : Field → ℕ → ℕ → Field
delete_range f start end =
    if is_range f start end
    then record { bytes = take start f.bytes ++ drop end f.bytes; col = start }
    else f

-- The column before the word before the cursor, and the column behind the word after it.
unfoldable pub prev_word_col : Field → ℕ
prev_word_col f = scan_back not_word f.bytes (scan_back not_space f.bytes f.col)

unfoldable pub next_word_col : Field → ℕ
next_word_col f =
    scan_forward not_word f.bytes (length f.bytes)
      (scan_forward not_space f.bytes (length f.bytes) f.col)

unfoldable pub delete_backward : Field → Field
delete_backward f = if ltb 0 f.col then delete_range f (prev_boundary f.bytes f.col) f.col else f

unfoldable pub delete_forward : Field → Field
delete_forward f =
    if leb (length f.bytes) f.col
    then f
    else delete_range f f.col (next_boundary f.bytes (length f.bytes) f.col)

unfoldable pub delete_prev_word : Field → Field
delete_prev_word f = if ltb 0 f.col then delete_range f (prev_word_col f) f.col else f

unfoldable pub delete_next_word : Field → Field
delete_next_word f = delete_range f f.col (next_word_col f)

unfoldable pub kill_to_end : Field → Field
kill_to_end f = delete_range f f.col (length f.bytes)

unfoldable pub insert : Field → ℕ → Field
insert f key =
    if leb field_size (length f.bytes + 1)
    then f
    else record { bytes = take f.col f.bytes ++ key ∷ drop f.col f.bytes; col = suc f.col }
