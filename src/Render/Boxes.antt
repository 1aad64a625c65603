-- ===== src/Render/Boxes.antt =====
-- Where src/render.c puts the boxes of the finder and of the prompt.
use ved.Common.{ℕ, ◌+◌, ◌≤◌, ◌<◌, ◌≡◌, ◌⊎◌, inl, inr, lt_or_le, arith}
use ved.Finder.{modal_width, list_rows}
use ved.Editor.{Editor}
use ved.Render.Scroll.{text_rows}
use ved.Render.Modal.{
  Geometry, centred, finder_modal_geometry, prompt_width, prompt_row, prompt_modal_geometry,
}

-- A box of this many rows, whose sides are a column each, lies within the rows from 1 to `rows` and
-- the columns from 1 to `cols`.
pub record LiesIn (g : Geometry) (height rows cols : ℕ) : Type 0 where
  pub top : 0 < g.row
  pub bottom : g.row + height ≤ rows + 1
  pub left : 0 < g.col
  pub right : g.col + g.width + 2 ≤ cols + 1

-- On a screen of at least 7 rows and 14 columns, the finder's box, of the list and four rows more, lies
-- on the screen, and the prompt's box of three rows above the status bar. On a screen of 7 to 12 rows
-- the bottom of the finder's box is on the row of the status bar; on a higher one it lies above it.
pub boxes-LieIn :
    (ed : Editor)
    → 7 ≤ ed.screen_rows
    → 14 ≤ ed.screen_cols
    → let finder = finder_modal_geometry ed (text_rows ed) in
      let height = list_rows ed + 4 in
      LiesIn finder height ed.screen_rows ed.screen_cols
      × LiesIn (prompt_modal_geometry ed (text_rows ed)) 3 (text_rows ed) ed.screen_cols
      × (((ed.screen_rows < 13) × (finder.row + height ≡ ed.screen_rows + 1))
          ⊎ ((12 < ed.screen_rows) × LiesIn finder height (text_rows ed) ed.screen_cols))
unfolding finder_modal_geometry prompt_modal_geometry modal_width list_rows centred prompt_width
    prompt_row
boxes-LieIn ed h k = (
  ground arith,
  ground arith,
  elim (lt_or_le ed.screen_rows 13) [
    | inl low ↦ inl (low, ground arith)
    | inr high ↦ inr (omega arith, ground arith)
  ],
)
