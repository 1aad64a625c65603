-- ===== src/Output.antt =====
-- The buffer in which src/render.c collects the output for the terminal.
pub mod Growth
use ved.Common.{
  ℕ, zero, suc, ◌+◌, ◌-◌, ◌*◌, ◌%◌, Bool, true, false, List, [], ◌∷◌, ◌++◌, ltb, ◌==◌,
  if◌then◌else◌, length, take, replicate,
}
use ved.Text.{codes, decimal}
use ved.Utf8.{tab_width_at}

-- `AppendBuf`; `len` is the number of the bytes. A `cap` of 0 stands with `data` NULL.
pub record AppendBuf : Type 0 where
  pub bytes : List ℕ
  pub cap : ℕ

unfoldable pub ab_init : AppendBuf
ab_init = record { bytes = []; cap = 0 }

-- `while (next < needed) next *= 2;`
unfoldable pub doubled : ℕ → ℕ → ℕ → ℕ
doubled zero next needed = next
doubled (suc fuel) next needed =
    let rest = doubled fuel (next * 2) needed in if ltb next needed then rest else next

-- The capacity for `needed` bytes; each round adds one at least, so `needed` rounds are enough.
unfoldable pub next_cap : ℕ → ℕ → ℕ
unfolding doubled
next_cap cap needed =
    if ltb cap needed then doubled needed (if cap == 0 then 256 else cap * 2) needed else cap

unfoldable pub ab_append : AppendBuf → List ℕ → AppendBuf
unfolding next_cap
ab_append ab text = if length text == 0 then ab else record {
  bytes = ab.bytes ++ text;
  cap = next_cap ab.cap (length ab.bytes + length text + 1);
}

abbrev pub ab_append_char : AppendBuf → ℕ → AppendBuf
ab_append_char ab ch = ab_append ab (ch ∷ [])

unfoldable pub ab_append_repeat : AppendBuf → List ℕ → ℕ → AppendBuf
ab_append_repeat ab text zero = ab
ab_append_repeat ab text (suc count) = ab_append_repeat (ab_append ab text) text count

-- An escape sequence: ESC and what follows.
abbrev pub esc : List ℕ → List ℕ
esc rest = 27 ∷ rest

-- `ab_move_cursor`
unfoldable pub ab_move_cursor : AppendBuf → ℕ → ℕ → AppendBuf
ab_move_cursor ab row col =
    ab_append ab (take 31 (esc (b'[' ∷ decimal row ++ b';' ∷ decimal col ++ b'H' ∷ [])))

unfoldable pub ab_append_padded : AppendBuf → List ℕ → ℕ → AppendBuf
unfolding ab_append_repeat
ab_append_padded ab text width =
    let len = if ltb width (length text) then width else length text in
    ab_append_repeat (if ltb 0 len then ab_append ab (take len text) else ab) (32 ∷ [])
      (width - len)

-- `ab_append_expanding_tabs`; `tab_width_at_col` is the same function as `tab_width_at`.
unfoldable pub ab_append_expanding_tabs : AppendBuf → List ℕ → ℕ → AppendBuf
unfolding ab_append_repeat tab_width_at
ab_append_expanding_tabs ab [] col = ab
ab_append_expanding_tabs ab (b ∷ rest) col =
    let spaces = tab_width_at col in
    let tab = ab_append_expanding_tabs (ab_append_repeat ab (32 ∷ []) spaces) rest (col + spaces) in
    let byte = ab_append_expanding_tabs (ab_append_char ab b) rest (suc col) in
    if b == 9 then tab else byte

-- `\x1b[m` and `\x1b[7m`
abbrev pub reset : List ℕ
reset = esc (codes "[m")

abbrev pub inverse : List ℕ
inverse = esc (codes "[7m")
