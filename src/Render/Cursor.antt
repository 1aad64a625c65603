-- ===== src/Render/Cursor.antt =====
-- Where src/render.c puts the terminal's cursor.
use ved.Common.{
  true_not_false, ℕ, not, bit_and, holds_from-at, zero, suc, ◌+◌, ◌-◌, ◌≤◌, ◌<◌, ◌≡◌, ◌≢◌, refl,
  sym, ◌∙◌, true, false, List, [], ◌∷◌, arith, length, min, ltb, leb, lt→ltb, ◌==◌, if_cases,
}
use ved.Common.Int.{ℤ, pos, negsuc, sub_ℕ}
use ved.Utf8.{
  byte_at, is_continuation, clamp_inside, clamp_col, advance, vis_from, byte_to_vis_col,
  vis_to_byte_col,
}
use ved.Utf8.Column.{NoNul, vis_to_byte_col-byte_to_vis_col}
use ved.Buffer.{line_count, line_at}
use ved.Buffer.Refine.{line_length-eq}
use ved.Frame.Bounds.{InText}
use ved.Editor.{Editor}
use ved.Render.Scroll.{text_rows, scroll_cols, editor_scroll}
use ved.Render.Visible.{editor_scroll-shows}
use ved.Render.{cursor_at}

-- A line of ASCII bytes without tabs.
abbrev pub IsPlain : List ℕ → Type 0
IsPlain [] = Unit
IsPlain (b ∷ line) = ((b ≢ 0) × (b ≢ 9) × (b < 128)) × IsPlain line

IsPlain-NoNul : (line : List ℕ) → IsPlain line → NoNul line
IsPlain-NoNul [] p i h = absurd (omega arith)
IsPlain-NoNul (b ∷ line) ((z, t, a), p) zero h = z
IsPlain-NoNul (b ∷ line) (q, p) (suc i) h = IsPlain-NoNul line p i (omega arith)

vis_from-plain :
    (line : List ℕ) (vis n : ℕ) → IsPlain line → vis_from vis line n ≡ vis + min n (length line)
unfolding vis_from advance
vis_from-plain [] vis zero p = omega arith
vis_from-plain [] vis (suc n) p = omega arith
vis_from-plain (b ∷ line) vis zero p = omega arith
vis_from-plain (b ∷ line) vis (suc n) ((z, t, a), p) =
    ground (arith, vis_from-plain line (suc vis) n p)

byte_at-plain : (line : List ℕ) (i : ℕ) → IsPlain line → byte_at line i < 128
byte_at-plain [] i p = omega arith
byte_at-plain (b ∷ line) zero ((z, t, a), p) = a
byte_at-plain (b ∷ line) (suc i) (q, p) = byte_at-plain line i p

is_continuation-plain : (b : ℕ) → b < 128 → is_continuation b ≡ false
unfolding is_continuation
is_continuation-plain b h =
    let test : not (bit_and b 0xc0 == 0x80) ≡ true =
      holds_from-at 128 0 b (λ n. not (bit_and n 0xc0 == 0x80)) refl (omega arith) h in
    ground arith

clamp_col-plain :
    (line : List ℕ) (col : ℕ)
    → IsPlain line
    → clamp_col line (length line) col ≡ min col (length line)
unfolding clamp_col clamp_inside
clamp_col-plain line col p =
    ground (arith, is_continuation-plain (byte_at line col) (byte_at-plain line col p))

module _ (line : List ℕ) (p : IsPlain line) where
  to_vis : (col : ℕ) → byte_to_vis_col line col ≡ min col (length line)
  unfolding byte_to_vis_col
  to_vis col = vis_from-plain line 0 col p ∙ omega arith

  to_byte : (vis : ℕ) → vis ≤ length line → vis_to_byte_col line (length line) vis ≡ vis
  to_byte vis h =
      let e : byte_to_vis_col line vis ≡ vis = omega (arith, to_vis vis) in
      rw e at (vis_to_byte_col-byte_to_vis_col line vis (IsPlain-NoNul line p) h)

  -- The new left column: not behind the cursor, and the cursor less than a screen behind it.
  scroll_cols-shows :
      (cols col offset : ℕ)
      → 0 < cols
      → col ≤ length line
      → let left = scroll_cols cols line (length line) col offset in
        (left ≤ col) × (col < left + cols)
  unfolding scroll_cols
  scroll_cols-shows cols col offset c h = ground (
    arith,
    to_vis col,
    to_vis offset,
    to_byte col,
    to_byte (col - cols + 1),
    clamp_col-plain line col p,
    clamp_col-plain line (col - cols + 1) p,
    clamp_col-plain line offset p,
  )

-- A coordinate from 1 up to a bound.
abbrev pub Between : ℕ → ℤ → Type 0
Between bound (pos n) = (1 ≤ n) × (n ≤ bound)
Between bound (negsuc n) = ⊥

sub_ℕ-Between :
    (bound at start : ℕ) → start ≤ at → at < start + bound → Between bound (sub_ℕ (at + 1) start)
sub_ℕ-Between bound at start h k =
    if_cases (Between bound) (leb start (at + 1)) (λ _. omega arith) (λ f. absurd (ground arith))

-- The column of a cursor in a line of plain bytes, seen from the left column that was chosen for it.
column-fits :
    (line : List ℕ) (cols col offset : ℕ)
    → IsPlain line
    → 0 < cols
    → col ≤ length line
    → Between cols (
        sub_ℕ
          (byte_to_vis_col line col + 1)
          (byte_to_vis_col line (scroll_cols cols line (length line) col offset)))
column-fits line cols col offset p c h =
    let left = scroll_cols cols line (length line) col offset in
    let shown = scroll_cols-shows line p cols col offset c h in
    let at = to_vis line p col in
    let start = to_vis line p left in
    sub_ℕ-Between cols (byte_to_vis_col line col) (byte_to_vis_col line left) (omega arith)
      (omega arith)

left_column :
    (ed : Editor)
    → ed.frame.row < line_count ed.buffer
    → (editor_scroll ed).col_offset
      ≡ scroll_cols ed.screen_cols
          (line_at ed.buffer ed.frame.row)
          (length (line_at ed.buffer ed.frame.row))
          ed.frame.col
          ed.col_offset
unfolding editor_scroll
left_column ed h =
    rw (lt→ltb ed.frame.row (line_count ed.buffer) h, line_length-eq ed.buffer ed.frame.row h) refl

-- While neither box is open, with a window of at least one row above the status bar and one column,
-- the terminal's cursor is put inside of that part of the screen, wherever the window stood before,
-- if the cursor is in the text and on a line of ASCII bytes without tabs.
pub cursor_at-fits :
    (ed : Editor)
    → ed.finder.active ≡ false
    → ed.prompt_active ≡ false
    → 0 < text_rows ed
    → 0 < ed.screen_cols
    → InText ed.buffer ed.frame
    → IsPlain (line_at ed.buffer ed.frame.row)
    → let (row, col) = cursor_at (editor_scroll ed) in
      Between (text_rows ed) row × Between ed.screen_cols col
unfolding cursor_at editor_scroll
cursor_at-fits ed fi pr r c v p =
    if_cases P ed.finder.active (λ t. absurd (true_not_false (sym t ∙ fi)))
      (λ _.
        if_cases P ed.prompt_active (λ t. absurd (true_not_false (sym t ∙ pr)))
          (λ _.
            if_cases P (ltb ed.frame.row (line_count ed.buffer)) (λ _. (in_rows, in_cols))
              (λ f.
                absurd (
                  true_not_false (sym (lt→ltb ed.frame.row (line_count ed.buffer) v.row_in) ∙ f)))))
  where
    P : ℤ × ℤ → Type 0
    P (row, col) = Between (text_rows ed) row × Between ed.screen_cols col

    line : List ℕ
    line = line_at ed.buffer ed.frame.row

    in_rows : Between (text_rows ed) (sub_ℕ (ed.frame.row + 1) (editor_scroll ed).row_offset)
    in_rows =
        let (low, high, _) = editor_scroll-shows ed r v.row_in in
        sub_ℕ-Between (text_rows ed) ed.frame.row (editor_scroll ed).row_offset low high

    in_cols : Between ed.screen_cols (
        sub_ℕ
          (byte_to_vis_col line ed.frame.col + 1)
          (byte_to_vis_col line (editor_scroll ed).col_offset))
    in_cols = rw (left_column ed v.row_in) (
        column-fits line ed.screen_cols ed.frame.col ed.col_offset p c
          (omega (arith, v.col_in, line_length-eq ed.buffer ed.frame.row v.row_in)))
