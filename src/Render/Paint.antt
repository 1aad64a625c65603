-- ===== src/Render/Paint.antt =====
-- The colour that `render_line_with_spans` of src/render.c gives each byte of a line.
use ved.Common.{
  ℕ, zero, suc, ◌+◌, ◌≤◌, ◌<◌, ◌≡◌, ◌⊎◌, inl, inr, refl, ap, ◌∙◌, Bool, true, false, ◌&&◌, ◌||◌,
  none, some, List, [], ◌∷◌, arith, length, get_or, replicate, ltb, leb, ◌==◌, if◌then◌else◌,
}
use ved.Render.Highlight.{HighlightSpan}
use ved.Render.Line.{
  Cell, blank, span_start, span_end, paint_cell, paint_range, paint_span, paint_spans,
}

-- A byte of a row stands in a span: not before its start, and before its end.
abbrev pub covers : HighlightSpan → ℕ → ℕ → Bool
covers s row j =
    (ltb s.start_row row || (s.start_row == row && leb s.start_col j))
    && (ltb row s.end_row || (row == s.end_row && ltb j s.end_col))

-- A span is painted over a cell.
over : ℕ → ℕ → HighlightSpan → Cell → Cell
over row j s c = if covers s row j then paint_cell s c else c

paint_range-cell :
    (s : HighlightSpan) (start end k : ℕ) (cells : List Cell) (i : ℕ)
    → i < length cells
    → get_or (paint_range s start end k cells) i blank ≡ (
        if leb start (k + i) && ltb (k + i) end
        then paint_cell s (get_or cells i blank)
        else get_or cells i blank)
unfolding paint_range
paint_range-cell s start end k [] i h = elim h [ ]
paint_range-cell s start end k (c ∷ cells) zero h =
    ap (λ m. if leb start m && ltb m end then paint_cell s c else c)
      (let e : k ≡ k + 0 = omega arith in e)
paint_range-cell s start end k (c ∷ cells) (suc i) h =
    paint_range-cell s start end (suc k) cells i (omega arith)
    ∙ ap
        (λ m.
          if leb start m && ltb m end
          then paint_cell s (get_or cells i blank)
          else get_or cells i blank)
        (let e : suc k + i ≡ k + suc i = omega arith in e)

paint_span-cell :
    (row len : ℕ) (cells : List Cell) (s : HighlightSpan) (j : ℕ)
    → length cells ≡ len
    → j < len
    → get_or (paint_span row len cells s) j blank ≡ over row j s (get_or cells j blank)
unfolding paint_span span_start span_end over
paint_span-cell row len cells s j n h =
    ground (
      arith,
      paint_range-cell s (span_start s row) (span_end s row len) 0 cells j (omega (arith, n)),
    )

length-paint_range :
    (s : HighlightSpan) (start end k : ℕ) (cells : List Cell)
    → length (paint_range s start end k cells) ≡ length cells
unfolding paint_range
length-paint_range s start end k [] = refl
length-paint_range s start end k (c ∷ cells) = ap suc (length-paint_range s start end (suc k) cells)

length-paint_span :
    (row len : ℕ) (cells : List Cell) (s : HighlightSpan)
    → length (paint_span row len cells s) ≡ length cells
unfolding paint_span
length-paint_span row len cells s =
    ground (arith, length-paint_range s (span_start s row) (span_end s row len) 0 cells)

-- The spans are painted over a cell, the first of them first.
over_all : ℕ → ℕ → List HighlightSpan → Cell → Cell
over_all row j [] c = c
over_all row j (s ∷ spans) c = over_all row j spans (over row j s c)

paint_spans-cell :
    (row len : ℕ) (cells : List Cell) (spans : List HighlightSpan) (j : ℕ)
    → length cells ≡ len
    → j < len
    → get_or (paint_spans row len cells spans) j blank ≡ over_all row j spans (get_or cells j blank)
unfolding paint_spans over_all
paint_spans-cell row len cells [] j n h = refl
paint_spans-cell row len cells (s ∷ spans) j n h =
    paint_spans-cell row len (paint_span row len cells s) spans j
      (length-paint_span row len cells s ∙ n) h
    ∙ ap (λ c. over_all row j spans c) (paint_span-cell row len cells s j n h)

abbrev pub coloured : Cell → Bool
coloured c = elim c.color [ none ↦ false | some color ↦ true ]

-- Every span that covers the byte has at most the priority of the cell, which has a colour then.
abbrev pub Highest : ℕ → ℕ → List HighlightSpan → Cell → Type 0
Highest row j [] c = Unit
Highest row j (s ∷ spans) c =
    ((covers s row j ≡ false) ⊎ ((s.priority ≤ c.prio) × (coloured c ≡ true)))
    × Highest row j spans c

-- The colour and the priority of the cell are those of a span that covers the byte.
abbrev pub FromOne : ℕ → ℕ → List HighlightSpan → Cell → Type 0
FromOne row j [] c = ⊥
FromOne row j (s ∷ spans) c =
    ((covers s row j ≡ true) × (c.color ≡ some s.color) × (c.prio ≡ s.priority))
    ⊎ FromOne row j spans c

-- A cell with a priority above 0 has a colour.
Sound : Cell → Type 0
Sound c = (c.prio ≡ 0) ⊎ (coloured c ≡ true)

-- One span over a cell: the priority does not go down, a colour stays one, and a span that covers
-- the byte does not have a higher priority.
module _ (row j : ℕ) (s : HighlightSpan) (c : Cell) (v : Sound c) where
  over-Sound : Sound (over row j s c)
  unfolding over paint_cell Sound
  over-Sound = ground arith

  over-grows :
      (c.prio ≤ (over row j s c).prio) × ((coloured c ≡ false) ⊎ (coloured (over row j s c) ≡ true))
  unfolding over paint_cell Sound
  over-grows = ground arith

  over-Highest :
      (covers s row j ≡ false)
      ⊎ ((s.priority ≤ (over row j s c).prio) × (coloured (over row j s c) ≡ true))
  unfolding over paint_cell Sound
  over-Highest = ground arith

  over-FromOne :
      (over row j s c ≡ c)
      ⊎ ((covers s row j ≡ true)
          × (over row j s c ≡ record { color = some s.color; prio = s.priority }))
  unfolding over paint_cell
  over-FromOne = ground arith

over_all-grows :
    (row j : ℕ) (spans : List HighlightSpan) (c : Cell)
    → Sound c
    → let d = over_all row j spans c in
      (c.prio ≤ d.prio) × ((coloured c ≡ false) ⊎ (coloured d ≡ true))
unfolding over_all
over_all-grows row j [] c v = ground arith
over_all-grows row j (s ∷ spans) c v = ground (
  arith,
  over-grows row j s c v,
  over_all-grows row j spans (over row j s c) (over-Sound row j s c v),
)

over_all-Highest :
    (row j : ℕ) (spans : List HighlightSpan) (c : Cell)
    → Sound c
    → Highest row j spans (over_all row j spans c)
unfolding over_all
over_all-Highest row j [] c v = tt
over_all-Highest row j (s ∷ spans) c v =
    let sound = over-Sound row j s c v in
    let d = over row j s c in
    (
      ground (arith, over-Highest row j s c v, over_all-grows row j spans d sound),
      over_all-Highest row j spans d sound,
    )

over_all-FromOne :
    (row j : ℕ) (spans : List HighlightSpan) (c : Cell)
    → Sound c
    → (over_all row j spans c ≡ c) ⊎ FromOne row j spans (over_all row j spans c)
unfolding over_all
over_all-FromOne row j [] c v = inl refl
over_all-FromOne row j (s ∷ spans) c v =
    elim (over_all-FromOne row j spans (over row j s c) (over-Sound row j s c v)) [
      | inr later ↦ inr (inr later)
      | inl same ↦ elim (over-FromOne row j s c v) [
        | inl kept ↦ inl (same ∙ kept)
        | inr (covered, painted) ↦ inr (
            inl (
              covered,
              ap (λ d. Cell.color d) (same ∙ painted),
              ap (λ d. Cell.prio d) (same ∙ painted),
            ))
      ]
    ]

get_or-blanks : (n j : ℕ) → get_or (replicate n blank) j blank ≡ blank
get_or-blanks zero j = refl
get_or-blanks (suc n) zero = refl
get_or-blanks (suc n) (suc j) = get_or-blanks n j

length-blanks : (n : ℕ) → length (replicate n blank) ≡ n
length-blanks zero = refl
length-blanks (suc n) = ap suc (length-blanks n)

-- After all spans are painted, a byte of the line has no colour where no span covers it, and else
-- the colour of a span that covers it and whose priority is the highest among those that do.
pub paint_spans_lem :
    (row len : ℕ) (spans : List HighlightSpan) (j : ℕ)
    → j < len
    → let c = get_or (paint_spans row len (replicate len blank) spans) j blank in
      Highest row j spans c × ((c ≡ blank) ⊎ FromOne row j spans c)
unfolding Sound
paint_spans_lem row len spans j h =
    rw
      (
        paint_spans-cell row len (replicate len blank) spans j (length-blanks len) h,
        get_or-blanks len j,
      )
      (over_all-Highest row j spans blank (inl refl), over_all-FromOne row j spans blank (inl refl))
