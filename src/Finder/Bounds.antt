-- ===== src/Finder/Bounds.antt =====
-- The bounds of the selection in the list of src/finder.c.
use ved.Common.{
  ℕ, zero, suc, ◌+◌, ◌≤◌, ◌<◌, ◌≡◌, true, arith, length, ltb, leb, ◌==◌, ◌||◌, not, ◌≢◌, if_cases,
  ==→eq,
}
use ved.Common.Int.{ℤ, pos, negsuc}
use ved.Editor.{Editor, Finder}
use ved.Finder.{list_rows, moved_selection, adjust_scroll, move_selection}

pub list_rows-in : (ed : Editor) → (3 ≤ list_rows ed) × (list_rows ed ≤ 8)
unfolding list_rows
list_rows-in ed = (ground arith, ground arith)

pub moved_selection-in :
    (delta : ℤ) (sel count : ℕ) → sel < count → moved_selection delta sel count < count
unfolding moved_selection
moved_selection-in (negsuc n) sel count h = ground arith
moved_selection-in (pos zero) sel count h = h
moved_selection-in (pos (suc n)) sel count h = ground arith

-- The selection is a match, on one of the rows that the list shows.
pub record IsShown (rows : ℕ) (fd : Finder) : Type 0 where
  pub selected : fd.selection < length fd.matches
  pub above : fd.scroll ≤ fd.selection
  pub below : fd.selection < fd.scroll + rows

adjust_scroll-IsShown :
    (rows : ℕ) (fd : Finder)
    → 0 < rows
    → fd.selection < length fd.matches
    → IsShown rows (adjust_scroll rows fd)
unfolding adjust_scroll
adjust_scroll-IsShown rows fd r h =
    if_cases (IsShown rows) (length fd.matches == 0)
      (λ e.
        let z : length fd.matches ≡ 0 = ==→eq (length fd.matches) 0 e in absurd (omega (arith, z)))
      (λ _.
        if_cases (IsShown rows) (ltb fd.selection fd.scroll)
          (λ _. record { selected = h; above = omega arith; below = omega arith })
          (λ t.
            if_cases (IsShown rows) (leb (fd.scroll + rows) fd.selection)
              (λ u. record { selected = h; above = ground arith; below = ground arith })
              (λ u. record { selected = h; above = ground arith; below = ground arith })))

-- In an active finder whose selection is a match, every move of the selection, up or down by any
-- number of matches, leaves the selection a match that the list shows, given that it has a row,
-- wherever the list was scrolled to.
move_selection-IsShown :
    (rows : ℕ) (delta : ℤ) (fd : Finder)
    → fd.active ≡ true
    → 0 < rows
    → fd.selection < length fd.matches
    → IsShown rows (move_selection rows delta fd)
unfolding move_selection
move_selection-IsShown rows delta fd a r h =
    if_cases (IsShown rows) (not fd.active || length fd.matches == 0) (λ t. absurd (idle t))
      (λ _.
        adjust_scroll-IsShown rows
          (record fd { selection = moved_selection delta fd.selection (length fd.matches) }) r
          (moved_selection-in delta fd.selection (length fd.matches) h))
  where
    idle : (not fd.active || length fd.matches == 0) ≢ true
    idle t = ground arith
