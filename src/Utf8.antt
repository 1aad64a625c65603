-- ===== src/Utf8.antt =====
-- src/utf8.c: boundaries of UTF-8 characters in a line, and visual columns.
-- A `const char *` is the list of the bytes from it on; a read at the terminator or past it is 0.
pub mod Boundary
pub mod Column
use ved.Common.{
  ℕ, zero, suc, ◌+◌, ◌-◌, ◌%◌, Bool, ◌&&◌, not, List, [], ◌∷◌, bit_and, ltb, leb, ◌==◌,
  if◌then◌else◌, get_or,
}

-- `line[i]`
abbrev pub byte_at : List ℕ → ℕ → ℕ
byte_at line i = get_or line i 0

unfoldable pub is_continuation : ℕ → Bool
is_continuation ch = bit_and ch 0xc0 == 0x80

-- `while (col < len && utf8_is_continuation(line[col])) col++;`, with `len - col` rounds left.
unfoldable pub skip_continuations : ℕ → List ℕ → ℕ → ℕ
skip_continuations zero line col = col
skip_continuations (suc k) line col =
    let rest = skip_continuations k line (suc col) in
    if is_continuation (byte_at line col) then rest else col

unfoldable pub next_boundary : List ℕ → ℕ → ℕ → ℕ
next_boundary line len col =
    if leb len col then len else skip_continuations (len - suc col) line (suc col)

-- `while (col > 0 && utf8_is_continuation(line[col])) col--;`
unfoldable pub back_continuations : List ℕ → ℕ → ℕ
back_continuations line zero = zero
back_continuations line (suc c) =
    if is_continuation (byte_at line (suc c)) then back_continuations line c else suc c

unfoldable pub prev_boundary : List ℕ → ℕ → ℕ
prev_boundary line zero = zero
prev_boundary line (suc c) = back_continuations line c

-- The test of `utf8_clamp_col`, on the column that is already at most `len`.
unfoldable pub clamp_inside : List ℕ → ℕ → ℕ → ℕ
clamp_inside line len col =
    if ltb 0 col && ltb col len && is_continuation (byte_at line col)
    then prev_boundary line col
    else col

unfoldable pub clamp_col : List ℕ → ℕ → ℕ → ℕ
unfolding clamp_inside
clamp_col line len col = clamp_inside line len (if ltb len col then len else col)

unfoldable pub tab_width_at : ℕ → ℕ
tab_width_at vis_col = 8 - (vis_col % 8)

-- The visual column after the byte `b` at the visual column `vis`.
unfoldable pub advance : ℕ → ℕ → ℕ
unfolding tab_width_at
advance vis b = if b == 9 then vis + tab_width_at vis else suc vis

-- The loop of `utf8_byte_to_vis_col`; the list is the line from `i` on, the number `byte_col - i`.
unfoldable pub vis_from : ℕ → List ℕ → ℕ → ℕ
vis_from vis line zero = vis
vis_from vis [] (suc n) = vis
vis_from vis (b ∷ line) (suc n) = if b == 0 then vis else vis_from (advance vis b) line n

unfoldable pub byte_to_vis_col : List ℕ → ℕ → ℕ
byte_to_vis_col line byte_col = vis_from 0 line byte_col

-- The loop of `utf8_vis_to_byte_col`, with `len - byte_col` rounds left: the `break` on a tab that
-- does not fit is the test `vis_col < advance current b`.
unfoldable pub byte_from : ℕ → List ℕ → ℕ → ℕ → ℕ → ℕ
byte_from zero line current vis_col byte_col = byte_col
byte_from (suc k) line current vis_col byte_col =
    let b = byte_at line byte_col in
    let rest = byte_from k line (advance current b) vis_col (suc byte_col) in
    if ltb current vis_col && not (b == 9 && ltb vis_col (advance current b))
    then rest
    else byte_col

unfoldable pub vis_to_byte_col : List ℕ → ℕ → ℕ → ℕ
vis_to_byte_col line len vis_col = byte_from len line 0 vis_col 0
