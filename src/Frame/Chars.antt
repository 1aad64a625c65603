-- ===== src/Frame/Chars.antt =====
-- Movements by a character: what they do in each case, and that they undo one another.
use ved.Common.{
  ℕ, zero, suc, ◌≤◌, ◌<◌, ◌≡◌, refl, arith, lt→ltb, le→ltb_false, le→leb, lt→leb_false, inl, inr,
  lt_or_le, ◌⊎◌,
}
use ved.Buffer.{Buffer, line_count, line_at, line_length}
use ved.Buffer.Refine.{line_length-eq}
use ved.Utf8.{next_boundary, prev_boundary}
use ved.Utf8.Boundary.{
  Boundary, prev_boundary-next_boundary, next_boundary-prev_boundary, next_boundary_bounds,
  prev_boundary_bounds,
}
use ved.Frame.{Frame, move_prev_char, move_next_char}
use ved.Frame.Bounds.{InText}

abbrev pub at : ℕ → ℕ → Frame
at r c = record { row = r; col = c }

module _ (b : Buffer) where
  pub next_char-inside :
      (r c : ℕ)
      → c < line_length b r
      → move_next_char b (at r c) ≡ at r (next_boundary (line_at b r) (line_length b r) c)
  unfolding move_next_char
  next_char-inside r c h = rw (lt→ltb c (line_length b r) h)

  pub next_char-end :
      (r c : ℕ)
      → line_length b r ≤ c
      → suc r < line_count b
      → move_next_char b (at r c) ≡ at (suc r) 0
  unfolding move_next_char
  next_char-end r c h k =
      rw (le→ltb_false c (line_length b r) h, lt→leb_false (line_count b) (suc r) k)

  pub next_char-last :
      (r c : ℕ) → line_length b r ≤ c → line_count b ≤ suc r → move_next_char b (at r c) ≡ at r c
  unfolding move_next_char
  next_char-last r c h k = rw (le→ltb_false c (line_length b r) h, le→leb (line_count b) (suc r) k)

  pub prev_char-inside :
      (r c : ℕ) → 0 < c → move_prev_char b (at r c) ≡ at r (prev_boundary (line_at b r) c)
  unfolding move_prev_char
  prev_char-inside r c h = rw (lt→ltb 0 c h)

  pub prev_char-start : (r : ℕ) → move_prev_char b (at (suc r) 0) ≡ at r (line_length b r)
  unfolding move_prev_char
  prev_char-start r = refl

  pub prev_char-first : move_prev_char b (at 0 0) ≡ at 0 0
  unfolding move_prev_char
  prev_char-first = refl

  next_then_prev_inside :
      (r c : ℕ)
      → r < line_count b
      → c < line_length b r
      → Boundary (line_at b r) c
      → move_prev_char b (move_next_char b (at r c)) ≡ at r c
  next_then_prev_inside r c h k s =
      let e = line_length-eq b r h in
      let next = next_boundary (line_at b r) (line_length b r) c in
      let up = next_boundary_bounds (line_at b r) (line_length b r) c k in
      rw (next_char-inside r c k, prev_char-inside r next (omega arith), e)
        (λ i. at r (prev_boundary-next_boundary (line_at b r) c (omega arith) s i))

  -- From a character boundary in the text, `C-f` and then `C-b` comes back, unless the cursor stands
  -- at the end of the text.
  move_prev_char-move_next_char :
      (f : Frame)
      → InText b f
      → Boundary (line_at b f.row) f.col
      → (f.col < line_length b f.row) ⊎ (suc f.row < line_count b)
      → move_prev_char b (move_next_char b f) ≡ f
  move_prev_char-move_next_char f v s more = elim (lt_or_le f.col (line_length b f.row)) [
    | inl p ↦ next_then_prev_inside f.row f.col v.row_in p s
    | inr p ↦ at_end p more
  ]
    where
      at_end :
          line_length b f.row ≤ f.col
          → ((f.col < line_length b f.row) ⊎ (suc f.row < line_count b))
          → move_prev_char b (move_next_char b f) ≡ f
      at_end p (inl q) = absurd (omega arith)
      at_end p (inr q) =
          let e : line_length b f.row ≡ f.col = omega (arith, v.col_in) in
          rw (next_char-end f.row f.col p q, prev_char-start f.row) (λ i. at f.row (e i))

  -- From a character boundary in the text, `C-b` and then `C-f` comes back, unless the cursor stands
  -- at the start of the text.
  move_next_char-move_prev_char :
      (f : Frame)
      → InText b f
      → Boundary (line_at b f.row) f.col
      → (0 < f.row) ⊎ (0 < f.col)
      → move_next_char b (move_prev_char b f) ≡ f
  move_next_char-move_prev_char f v s more = by_col f.row f.col v.row_in v.col_in s more
    where
      by_col :
          (r c : ℕ)
          → r < line_count b
          → c ≤ line_length b r
          → Boundary (line_at b r) c
          → ((0 < r) ⊎ (0 < c))
          → move_next_char b (move_prev_char b (at r c)) ≡ at r c
      by_col zero zero h k s more = absurd (omega arith)
      by_col (suc r) zero h k s more =
          rw (prev_char-start r) (next_char-end r (line_length b r) (omega arith) h)
      by_col r (suc c) h k s more =
          let down = prev_boundary_bounds (line_at b r) (suc c) (omega arith) in
          let e = line_length-eq b r h in
          rw
            (
              prev_char-inside r (suc c) (omega arith),
              next_char-inside r (prev_boundary (line_at b r) (suc c)) (omega arith),
              e,
            )
            (λ i.
              at r
                (next_boundary-prev_boundary (line_at b r) (suc c) (omega arith) (omega arith) s i))

  -- From a character boundary in the text, `C-f` and then `C-b` comes back, or the cursor stands at
  -- the end of the text; and `C-b` and then `C-f` comes back, or it stands at the start.
  pub move_char-inverse :
      (f : Frame)
      → InText b f
      → Boundary (line_at b f.row) f.col
      → (((line_length b f.row ≤ f.col) × (line_count b ≤ suc f.row))
          ⊎ (move_prev_char b (move_next_char b f) ≡ f))
        × (((f.row ≡ 0) × (f.col ≡ 0)) ⊎ (move_next_char b (move_prev_char b f) ≡ f))
  move_char-inverse f v s = (
    elim (lt_or_le f.col (line_length b f.row)) [
      | inl p ↦ inr (move_prev_char-move_next_char f v s (inl p))
      | inr p ↦ elim (lt_or_le (suc f.row) (line_count b)) [
        | inl q ↦ inr (move_prev_char-move_next_char f v s (inr q))
        | inr q ↦ inl (p, q)
      ]
    ],
    elim (lt_or_le 0 f.row) [
      | inl p ↦ inr (move_next_char-move_prev_char f v s (inl p))
      | inr p ↦ elim (lt_or_le 0 f.col) [
        | inl q ↦ inr (move_next_char-move_prev_char f v s (inr q))
        | inr q ↦ inl (omega arith, omega arith)
      ]
    ],
  )
