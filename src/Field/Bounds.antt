-- ===== src/Field/Bounds.antt =====
-- The prompt of src/input.c and the query of src/finder.c stay inside their arrays.
use ved.Common.{
  ℕ, suc, ◌+◌, ◌-◌, ◌≤◌, ◌<◌, ◌≡◌, List, ◌∷◌, ◌++◌, arith, length, take, drop, ltb, leb,
  length-append, length-take, length-drop, if_cases, min,
}
use ved.Utf8.Boundary.{next_boundary-le, prev_boundary-le}
use ved.Scan.{is_word_char, not_word, scan_forward, scan_back}
use ved.Scan.Bounds.{scan_forward_bounds, scan_back-le}
use ved.Field.{
  Field, field_size, move_start, move_end, move_prev_char, move_next_char, move_prev_word,
  move_next_word, delete_range, delete_backward, delete_forward, delete_prev_word, delete_next_word,
  kill_to_end, insert,
}

-- The text and its terminator fit into the array, and the cursor is in the text or at its end.
pub record IsValid (f : Field) : Type 0 where
  pub fits : length f.bytes < field_size
  pub col_in : f.col ≤ length f.bytes

-- Every operation on the prompt, as the keys of src/input.c call them.
pub data FieldOp : Type 0 where
  to_start to_end to_prev_char to_next_char to_prev_word to_next_word : FieldOp
  erase_backward erase_forward erase_prev_word erase_next_word erase_to_end : FieldOp
  type : ℕ → FieldOp

abbrev pub apply : FieldOp → Field → Field
apply to_start f = move_start f
apply to_end f = move_end f
apply to_prev_char f = move_prev_char f
apply to_next_char f = move_next_char f
apply to_prev_word f = move_prev_word f
apply to_next_word f = move_next_word f
apply erase_backward f = delete_backward f
apply erase_forward f = delete_forward f
apply erase_prev_word f = delete_prev_word f
apply erase_next_word f = delete_next_word f
apply erase_to_end f = kill_to_end f
apply (type key) f = insert f key

length-cut :
    (bytes : List ℕ) (start end : ℕ)
    → length (take start bytes ++ drop end bytes) ≡ min start (length bytes) + (length bytes - end)
length-cut bytes start end = omega (
  arith,
  length-append {0} (take start bytes) (drop end bytes),
  length-take {0} start bytes,
  length-drop {0} end bytes,
)

pub delete_range-IsValid :
    (f : Field) (start end : ℕ) → IsValid f → IsValid (delete_range f start end)
unfolding delete_range
delete_range-IsValid f start end v = ground (arith, length-cut f.bytes start end)

length-insert :
    (bytes : List ℕ) (col key : ℕ)
    → length (take col bytes ++ key ∷ drop col bytes) ≡ suc (length bytes)
length-insert bytes col key = omega (
  arith,
  length-append {0} (take col bytes) (key ∷ drop col bytes),
  length-take {0} col bytes,
  length-drop {0} col bytes,
)

pub insert-IsValid : (f : Field) (key : ℕ) → IsValid f → IsValid (insert f key)
unfolding insert
insert-IsValid f key v = ground (arith, length-insert f.bytes f.col key)

-- Every operation keeps the line of input inside its array of 256 bytes and the cursor inside the
-- line.
pub apply-IsValid : (op : FieldOp) (f : Field) → IsValid f → IsValid (apply op f)
unfolding move_start move_end move_prev_char move_next_char move_prev_word move_next_word
    delete_backward delete_forward delete_prev_word delete_next_word kill_to_end
apply-IsValid to_start f v = omega arith
apply-IsValid to_end f v = omega arith
apply-IsValid to_prev_char f v = omega (arith, prev_boundary-le f.bytes f.col)
apply-IsValid to_next_char f v = omega (arith, next_boundary-le f.bytes (length f.bytes) f.col)
apply-IsValid to_prev_word f v = omega (
  arith,
  scan_back-le is_word_char f.bytes f.col,
  scan_back-le not_word f.bytes (scan_back is_word_char f.bytes f.col),
)
apply-IsValid to_next_word f v =
    let c = scan_forward is_word_char f.bytes (length f.bytes) f.col in
    let first = scan_forward_bounds is_word_char f.bytes (length f.bytes) f.col v.col_in in
    omega (arith, scan_forward_bounds not_word f.bytes (length f.bytes) c first.1)
apply-IsValid erase_backward f v =
    if_cases IsValid (ltb 0 f.col) (λ _. delete_range-IsValid f _ f.col v) (λ _. v)
apply-IsValid erase_forward f v =
    if_cases IsValid (leb (length f.bytes) f.col) (λ _. v) (λ _. delete_range-IsValid f f.col _ v)
apply-IsValid erase_prev_word f v =
    if_cases IsValid (ltb 0 f.col) (λ _. delete_range-IsValid f _ f.col v) (λ _. v)
apply-IsValid erase_next_word f v = delete_range-IsValid f f.col _ v
apply-IsValid erase_to_end f v = delete_range-IsValid f f.col _ v
apply-IsValid (type key) f v = insert-IsValid f key v
