-- ===== src/Region/Restore.antt =====
-- A kill of a region in src/input.c and a yank of it at the same place.
use mathlib.Core.List.{append_cancel_left}
use ved.Common.{
  get_or-head, false, ◌==◌, ℕ, suc, ◌≤◌, ◌<◌, ◌≡◌, ◌⊎◌, inl, inr, refl, sym, ap, ap₂, ◌∙◌, some,
  List, [], ◌∷◌, ◌++◌, arith, length, set, take, drop, leb, if_cases, length-append, length-take,
  length-set, get_or-set_self, le→ltb_false, lt→leb_false, ne→==_false, ==_refl,
}
use ved.Buffer.{
  Buffer, line_count, line_at, line_length, clamp, delete_ordered, delete_range, delete_region,
}
use ved.Buffer.Rows.{remove_rows}
use ved.Buffer.Refine.{line_length-eq, delete_region-in_row, delete_region-rows, text-delete_region}
use ved.Contents.{text, before, after, before-append-after}
use ved.Contents.Cursor.{before-set, before-remove_rows}
use ved.Frame.{Frame}
use ved.Frame.Bounds.{InText}
use ved.Editor.{Editor, touch}
use ved.KillRing.{KillRing, kill_set, current, open_entry, extend_entry}
use ved.KillRing.Laws.{IsValid, current-kill_set}
use ved.Region.{get_region, region_bytes, region_text, kill_text, kill_region, yank_from, yank}
use ved.Region.Copy.{text-region_bytes}
use ved.Region.Yank.{text-yank_from}

module _ (b : Buffer) (r c : ℕ) (row_in : r < line_count b)
    (col_in : c ≤ length (line_at b r)) where
  -- A buffer in which the text before (r, c) is as it was, and (r, c) is a position.
  abbrev Kept : Buffer → Type 0
  Kept nb = (before nb.lines r c ≡ before b.lines r c) × InText nb (record { row = r; col = c })

  fits : (rest : List ℕ) → c ≤ length (take c (line_at b r) ++ rest)
  fits rest = rw (length-append, length-take) (omega (arith, col_in))

  same-Kept : Kept b
  same-Kept = (refl, record { row_in = row_in; col_in = rw (line_length-eq b r row_in) col_in })

  spliced-Kept :
      (nb : Buffer) (rest : List ℕ)
      → nb.lines ≡ set b.lines r (take c (line_at b r) ++ rest)
      → Kept nb
  spliced-Kept nb rest e = (
    ap (λ ls. before ls r c) e ∙ before-set b.lines r c rest row_in col_in,
    record { row_in = rows; col_in = cols },
  )
    where
      rows : r < line_count nb
      rows = rw (e, length-set b.lines r (take c (line_at b r) ++ rest)) row_in

      cols : c ≤ line_length nb r
      cols =
          rw
            (
              line_length-eq nb r rows,
              e,
              get_or-set_self b.lines r (take c (line_at b r) ++ rest) [] row_in,
            )
            (fits rest)

  cut-Kept :
      (nb : Buffer) (rest : List ℕ) (s : ℕ)
      → nb.lines ≡ remove_rows (set b.lines r (take c (line_at b r) ++ rest)) (suc r) s
      → Kept nb
  cut-Kept nb rest s e = (
    ap (λ ls. before ls r c) e ∙ before-remove_rows b.lines r c s rest row_in col_in,
    record { row_in = rows; col_in = cols },
  )
    where
      line : List ℕ
      line = take c (line_at b r) ++ rest

      grown : r < length (set b.lines r line)
      grown = rw (length-set b.lines r line) row_in

      rows : r < line_count nb
      rows = rw (e, length-append, length-take) (omega (arith, grown))

      cols : c ≤ line_length nb r
      cols =
          rw
            (
              line_length-eq nb r rows,
              e,
              get_or-head (set b.lines r line) (drop s (set b.lines r line)) r [] grown,
              get_or-set_self b.lines r line [] row_in,
            )
            (fits rest)

  here : clamp (line_length b r) c ≡ c
  here = rw (line_length-eq b r row_in, le→ltb_false (length (line_at b r)) c col_in)

  delete_region-Kept :
      (s d : ℕ) → s < line_count b → (r < s) ⊎ ((r ≡ s) × (c ≤ d)) → Kept (delete_region b r c s d)
  delete_region-Kept s d h (inl p) = rw (delete_region-rows b r c s d h p).0 (
      cut-Kept (delete_ordered b r c s d) (drop (clamp (line_length b s) d) (line_at b s)) (suc s)
        ordered)
    where
      ordered :
          (delete_ordered b r c s d).lines
          ≡ remove_rows
              (set b.lines r
                (take c (line_at b r) ++ drop (clamp (line_length b s) d) (line_at b s)))
              (suc r)
              (suc s)
      ordered = unfold delete_ordered in rw (ne→==_false r s (omega arith), here) refl
  delete_region-Kept s d h (inr (e, p)) =
      rw (← e) (rw (delete_region-in_row b r c d row_in p).0 ordered)
    where
      ordered : Kept (delete_ordered b r c r d)
      ordered =
          unfold delete_ordered in
          unfold delete_range in
          rw (==_refl r, lt→leb_false (line_count b) r row_in, here)
            (if_cases Kept (leb (clamp (line_length b r) d) c) (λ _. same-Kept)
              (λ _. spliced-Kept _ (drop (clamp (line_length b r) d) (line_at b r)) refl))

-- The positions of a region in order, the second on a line of the buffer.
pub record IsRegion (b : Buffer) (start end : Frame) : Type 0 where
  pub start_in : InText b start
  pub end_in : InText b end
  pub ordered : (start.row < end.row) ⊎ ((start.row ≡ end.row) × (start.col ≤ end.col))

-- After the kill of a region the cursor is in the text, between what stood before the region and
-- what stood behind it.
kill_text-around :
    (ed : Editor) (start end : Frame) (bytes : List ℕ)
    → IsRegion ed.buffer start end
    → let ed' = kill_text ed start end bytes in
      InText ed'.buffer start
      × (before ed'.buffer.lines start.row start.col ≡ before ed.buffer.lines start.row start.col)
      × (after ed'.buffer.lines start.row start.col ≡ after ed.buffer.lines end.row end.col)
unfolding kill_text touch line_length
kill_text-around ed start end bytes v =
    (record { row_in = kept.1.row_in; col_in = kept.1.col_in }, kept.0, behind)
  where
    col_in : start.col ≤ length (line_at ed.buffer start.row)
    col_in = rw (← line_length-eq ed.buffer start.row v.start_in.row_in) v.start_in.col_in

    cut : Buffer
    cut = delete_region ed.buffer start.row start.col end.row end.col

    kept :
        (before cut.lines start.row start.col ≡ before ed.buffer.lines start.row start.col)
        × InText cut start
    kept =
        delete_region-Kept ed.buffer start.row start.col v.start_in.row_in col_in end.row end.col
          v.end_in.row_in v.ordered

    behind : after cut.lines start.row start.col ≡ after ed.buffer.lines end.row end.col
    behind = append_cancel_left (before ed.buffer.lines start.row start.col) _ _ (
        ap (λ t. t ++ after cut.lines start.row start.col) (sym kept.0)
        ∙ before-append-after cut.lines start.row start.col kept.1.row_in
        ∙ (text-delete_region ed.buffer start.row start.col end.row end.col v.end_in.row_in
            v.ordered).0)

-- Yanking the bytes of a region that has just been killed, both ends of which were in the text,
-- restores the text, and leaves the cursor in the text behind them.
yank_from-kill_text :
    (ed : Editor) (start end : Frame)
    → IsRegion ed.buffer start end
    → let bytes = region_bytes ed.buffer start end in
      let ed' = (yank_from (kill_text ed start end bytes) (some bytes)).1 in
      (text ed'.buffer.lines ≡ text ed.buffer.lines)
      × (before ed'.buffer.lines ed'.frame.row ed'.frame.col
          ≡ before ed.buffer.lines start.row start.col ++ bytes)
      × InText ed'.buffer ed'.frame
unfolding kill_text touch
yank_from-kill_text ed start end v =
    let (inside, front, back) = kill_text-around ed start end bytes v in
    let (whole, behind, in_text, from, to) =
      text-yank_from (kill_text ed start end bytes) bytes inside in
    (
      whole
          ∙ ap₂ (λ f g. f ++ (bytes ++ g)) front back
          ∙ text-region_bytes ed.buffer start end v.end_in.row_in (in_row v.ordered)
              (rows v.ordered),
      behind ∙ ap (λ f. f ++ bytes) front,
      in_text,
    )
  where
    bytes : List ℕ
    bytes = region_bytes ed.buffer start end

    in_row :
        (start.row < end.row) ⊎ ((start.row ≡ end.row) × (start.col ≤ end.col))
        → start.row ≡ end.row
        → start.col ≤ end.col
    in_row (inl p) e = omega arith
    in_row (inr (q, p)) e = p

    rows :
        (start.row < end.row) ⊎ ((start.row ≡ end.row) × (start.col ≤ end.col))
        → start.row ≤ end.row
    rows (inl p) = omega arith
    rows (inr (q, p)) = omega arith

-- A new entry is the current one of a ring that is not empty.
kill_set-new :
    (k : KillRing) (c : ℕ) (more : List ℕ)
    → IsValid k
    → ((kill_set k (c ∷ more) false).len == 0) ≡ false
      × (current (kill_set k (c ∷ more) false) ≡ some (c ∷ more))
kill_set-new k c more v = (
  unfold kill_set in unfold open_entry in unfold extend_entry in ground arith,
  current-kill_set k c more false v,
)

-- `C-w` and then `C-y` restores the text and leaves the cursor in it: for a region that both ends
-- are in the text of and that is not empty, a valid kill ring, and no kill right before.
pub yank-kill_region :
    (ed : Editor) (start end : Frame) (c : ℕ) (more : List ℕ)
    → get_region ed ≡ some (start, end)
    → IsRegion ed.buffer start end
    → region_bytes ed.buffer start end ≡ c ∷ more
    → IsValid ed.kill_ring
    → ed.last_was_kill ≡ false
    → let ed' = (yank (kill_region ed).1).1 in
      (text ed'.buffer.lines ≡ text ed.buffer.lines) × InText ed'.buffer ed'.frame
yank-kill_region ed start end c more g v e k l =
    (ap (λ o. text o.buffer.lines) both ∙ restored.0, rw both restored.2)
  where
    ed₁ : Editor
    ed₁ = kill_text ed start end (c ∷ more)

    killed : (kill_region ed).1 ≡ ed₁
    killed = unfold kill_region in unfold region_text in rw (kill_region, g, region_text, e) refl

    ring : ed₁.kill_ring ≡ kill_set ed.kill_ring (c ∷ more) false
    ring = unfold kill_text in unfold touch in ap (kill_set ed.kill_ring (c ∷ more)) l

    filled : (ed₁.kill_ring.len == 0) ≡ false
    filled = ap (λ kr. KillRing.len kr == 0) ring ∙ (kill_set-new ed.kill_ring c more k).0

    chosen : (yank ed₁).1 ≡ (yank_from ed₁ (current ed₁.kill_ring)).1
    chosen = unfold yank in rw (yank, filled) refl

    yanked : (yank ed₁).1 ≡ (yank_from ed₁ (some (c ∷ more))).1
    yanked =
        chosen
        ∙ ap (λ entry. (yank_from ed₁ entry).1)
            (ap (λ kr. current kr) ring ∙ (kill_set-new ed.kill_ring c more k).1)

    both : (yank (kill_region ed).1).1 ≡ (yank_from ed₁ (some (c ∷ more))).1
    both = ap (λ o. (yank o).1) killed ∙ yanked

    restored :
        let ed' = (yank_from ed₁ (some (c ∷ more))).1 in
        (text ed'.buffer.lines ≡ text ed.buffer.lines)
        × (before ed'.buffer.lines ed'.frame.row ed'.frame.col
            ≡ before ed.buffer.lines start.row start.col ++ (c ∷ more))
        × InText ed'.buffer ed'.frame
    restored = rw e at (yank_from-kill_text ed start end v)
