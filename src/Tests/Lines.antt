-- ===== src/Tests/Lines.antt =====
-- Characters, columns and searches in short lines.
use ved.Common.{ℕ, zero, suc, ◌≤◌, ◌<◌, ◌≡◌, inr, ◌⊎◌, refl, true, List, [], ◌∷◌, arith}
use ved.Utf8.{
  is_continuation, byte_at, next_boundary, prev_boundary, byte_to_vis_col, vis_to_byte_col,
}
use ved.Utf8.Boundary.{Boundary, Inside, next_boundary_lem, prev_boundary_lem}
use ved.Utf8.Column.{NoNul, vis_to_byte_col-byte_to_vis_col}
use ved.Scan.{not_space, scan_forward}
use ved.Scan.Bounds.{Reached, Passed, scan_forward_lem}
use ved.Buffer.{line_length}
use ved.Frame.{move_prev_char, move_next_char}
use ved.Frame.Bounds.{InText}
use ved.Frame.Chars.{move_char-inverse}
use ved.Buffer.{line_count}
use ved.Tests.{doc, pos_at}

-- "cé"
abbrev accent : List ℕ
accent = 99 ∷ 0xc3 ∷ 0xa9 ∷ []

next_boundary_lem_example :
    let n = next_boundary accent 3 1 in (1 < n) × (n ≤ 3) × Boundary accent n × Inside accent 1 n
next_boundary_lem_example = next_boundary_lem accent 1 (omega arith)

prev_boundary_lem_example :
    let p = prev_boundary accent 3 in (p < 3) × Boundary accent p × Inside accent p 3
prev_boundary_lem_example = prev_boundary_lem accent 3 (omega arith)

lead_byte : Boundary accent 1
unfolding is_continuation
lead_byte = inr refl

-- A tab and a letter.
abbrev tabbed : List ℕ
tabbed = 9 ∷ 97 ∷ []

no_nul : NoNul tabbed
no_nul zero h e = omega (arith, e)
no_nul (suc zero) h e = omega (arith, e)
no_nul (suc (suc i)) h e = omega (arith, h)

vis_to_byte_col-byte_to_vis_col_example : vis_to_byte_col tabbed 2 (byte_to_vis_col tabbed 1) ≡ 1
vis_to_byte_col-byte_to_vis_col_example =
    vis_to_byte_col-byte_to_vis_col tabbed 1 no_nul (omega arith)

scan_forward_lem_example :
    let c = scan_forward not_space accent 3 0 in
    (0 ≤ c)
    × (c ≤ 3)
    × Reached accent 0 c
    × Passed not_space accent 0 c
    × ((c ≡ 3) ⊎ (not_space (byte_at accent c) ≡ true))
scan_forward_lem_example = scan_forward_lem not_space accent 0 (omega arith)

inside_row : InText doc (pos_at 1 1)
unfolding line_length
inside_row = record { row_in = omega arith; col_in = omega arith }

move_char-inverse_example :
    let f = pos_at 1 1 in
    (((line_length doc 1 ≤ 1) × (line_count doc ≤ 2))
      ⊎ (move_prev_char doc (move_next_char doc f) ≡ f))
    × (((◌≡◌ {A = ℕ} 1 0) × (◌≡◌ {A = ℕ} 1 0)) ⊎ (move_next_char doc (move_prev_char doc f) ≡ f))
move_char-inverse_example = move_char-inverse doc (pos_at 1 1) inside_row lead_byte
