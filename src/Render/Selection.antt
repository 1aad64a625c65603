-- ===== src/Render/Selection.antt =====
-- What src/render.c shows as selected is the region that the commands of src/input.c work on.
use Prim.Native.Nat.{Ordering}
use ved.Common.{ℕ, ◌≤◌, ◌<◌, ◌≡◌, ◌⊎◌, ◌↔◌, inl, inr, refl, Option, none, some, arith, Bool-cases}
use ved.Frame.{Frame, pos_compare}
use ved.Search.{size_max}
use ved.Editor.{Editor}
use ved.Region.{get_region, order_positions}
use ved.Render.Line.{selection_range, selection_range_for_row}

-- A column is in a range of columns.
abbrev pub InRange : Option (ℕ × ℕ) → ℕ → Type 0
InRange none col = ⊥
InRange (some (start, end)) col = (start ≤ col) × (col < end)

-- A byte of a row stands in a region.
abbrev pub InRegion : Option (Frame × Frame) → ℕ → ℕ → Type 0
InRegion none row col = ⊥
InRegion (some (a, b)) row col =
    ((a.row < row) ⊎ ((a.row ≡ row) × (a.col ≤ col)))
    × ((row < b.row) ⊎ ((row ≡ b.row) × (col < b.col)))

selection_range-InRegion :
    (a b : Frame) (row col : ℕ)
    → col < size_max
    → InRange (selection_range a b row) col ↔ InRegion (some (a, b)) row col
unfolding selection_range
selection_range-InRegion a b row col h = ground arith

pos_compare-eq : (r c s d : ℕ) → pos_compare r c s d ≡ Ordering.eq → (r ≡ s) × (c ≡ d)
unfolding pos_compare
pos_compare-eq r c s d h = (ground arith, ground arith)

-- The three orders of the mark and the cursor.
module _ (m f : Frame) (row col : ℕ) (h : col < size_max) where
  shown : Ordering → Option (ℕ × ℕ)
  shown o =
      let (a, b) : Frame × Frame = elim o [
        | Ordering.gt ↦ (f, m)
        | Ordering.lt ↦ (m, f)
        | Ordering.eq ↦ (m, f)
      ] in
      selection_range a b row

  region : Ordering → Option (Frame × Frame)
  region o = elim o [ Ordering.gt ↦ some (f, m) | Ordering.lt ↦ some (m, f) | Ordering.eq ↦ none ]

  shown-region :
      (o : Ordering)
      → pos_compare m.row m.col f.row f.col ≡ o
      → InRange (shown o) col ↔ InRegion (region o) row col
  unfolding shown region
  shown-region Ordering.gt e = selection_range-InRegion f m row col h
  shown-region Ordering.lt e = selection_range-InRegion m f row col h
  shown-region Ordering.eq e =
      let (rows, cols) = pos_compare-eq m.row m.col f.row f.col e in
      let (there, back) = selection_range-InRegion m f row col h in
      (λ x. let (low, high) = there x in ground arith, λ x. absurd x)

-- The bytes that the screen shows as selected are those of the region between the mark and the
-- cursor, on which `C-w` and `M-w` work, and none where there is no region.
pub selection_range_for_row-InRegion :
    (ed : Editor) (row col : ℕ)
    → col < size_max
    → InRange (selection_range_for_row ed row) col ↔ InRegion (get_region ed) row col
unfolding selection_range_for_row get_region order_positions shown region
selection_range_for_row-InRegion ed row col h = elim (Bool-cases ed.mark_active) [
  | inl e ↦ rw e (
      shown-region ed.mark ed.frame row col h
        (pos_compare ed.mark.row ed.mark.col ed.frame.row ed.frame.col) refl)
  | inr e ↦ rw e (λ x. x, λ x. x)
]
