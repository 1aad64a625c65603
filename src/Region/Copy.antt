-- ===== src/Region/Copy.antt =====
-- The text that the region commands of src/input.c copy is the part of the buffer's text between the
-- two ends of the region.
use ved.Common.{
  ℕ, zero, suc, ◌+◌, ◌-◌, ◌≤◌, ◌<◌, ◌≡◌, refl, sym, ap, ◌∙◌, true, false, List, [], ◌∷◌, ◌++◌,
  append_assoc, append-nil, arith, length, get_or, take, drop, drop_all, ltb, ◌==◌, if◌then◌else◌,
  if_cases, take-append-drop,
}
use ved.Buffer.{Buffer, line_count, line_at}
use ved.Buffer.Refine.{line_length-eq}
use ved.Contents.{text, tail_text, before, after, after-eq, before-append-after}
use ved.Frame.{Frame}
use ved.Region.{cut, row_piece, copy_rows, region_bytes}

-- The next row begins behind a newline.
pub after-row :
    (ls : List (List ℕ)) (row c : ℕ)
    → suc row < length ls
    → after ls row c ≡ drop c (get_or ls row []) ++ 10 ∷ after ls (suc row) 0
unfolding after text
after-row [] row c h = elim h [ ]
after-row (l ∷ []) row c h = absurd (omega arith)
after-row (l ∷ m ∷ ls) zero c h = unfold tail_text in refl
after-row (l ∷ m ∷ ls) (suc row) c h = after-row (m ∷ ls) row c (omega arith)

-- What a row adds from a column on, up to its end or to the column at which the region ends.
pub take-drop_end :
    (line : List ℕ) (from to : ℕ)
    → from ≤ to
    → take (to - from) (drop from line) ++ drop to line ≡ drop from line
take-drop_end line zero to h = let e : to - 0 ≡ to = omega arith in rw e (take-append-drop to line)
take-drop_end [] (suc from) zero h = elim h [ ]
take-drop_end [] (suc from) (suc to) h = nil (suc to - suc from)
  where
    nil : (n : ℕ) → take {A = ℕ} n [] ++ [] ≡ []
    nil zero = refl
    nil (suc n) = refl
take-drop_end (x ∷ line) (suc from) zero h = elim h [ ]
take-drop_end (x ∷ line) (suc from) (suc to) h =
    let e : suc to - suc from ≡ to - from = omega arith in
    rw e (take-drop_end line from to (omega arith))

drop-cut : (n : ℕ) (line : List ℕ) → drop (cut n (length line)) line ≡ drop n line
drop-cut n line =
    if_cases (λ k. drop k line ≡ drop n line) (ltb n (length line)) (λ _. refl)
      (λ h. drop_all (length line) line (omega arith) ∙ sym (drop_all n line (ground arith)))

-- The bytes of a line between two columns in order, each cut at the end of the line.
abbrev piece : List ℕ → ℕ → ℕ → List ℕ
piece line from to = if ltb from to then take (to - from) (drop from line) else []

piece_end :
    (line : List ℕ) (from to : ℕ) → from ≤ to → piece line from to ++ drop to line ≡ drop from line
piece_end line from to h =
    if_cases (λ p. p ++ drop to line ≡ drop from line) (ltb from to)
      (λ _. take-drop_end line from to h)
      (λ n. let e : to ≡ from = ground arith in ap (λ k. drop k line) e)

-- The piece of a row from a column on, when the region ends in the row.
piece-cut :
    (line : List ℕ) (from to : ℕ)
    → from ≤ to
    → piece line (cut from (length line)) (cut to (length line)) ++ drop to line ≡ drop from line
piece-cut line from to h =
    ap (piece line (cut from (length line)) (cut to (length line)) ++◌) (sym (drop-cut to line))
    ∙ piece_end line (cut from (length line)) (cut to (length line)) (ground arith)
    ∙ drop-cut from line

-- The piece of a row from a column on, when the region goes on below the row.
piece_whole :
    (line : List ℕ) (from : ℕ) → piece line (cut from (length line)) (length line) ≡ drop from line
piece_whole line from =
    sym (append-nil (piece line (cut from (length line)) (length line)))
    ∙ ap (piece line (cut from (length line)) (length line) ++◌)
        (sym (drop_all (length line) line (omega arith)))
    ∙ piece_end line (cut from (length line)) (length line) (ground arith)
    ∙ drop-cut from line

-- The column from which a row belongs to the region.
abbrev from_col : Frame → ℕ → ℕ
from_col start row = if row == start.row then start.col else 0

module _ (b : Buffer) (start end : Frame) (inside : end.row < line_count b) where
  cut_from :
      (row len : ℕ)
      → (if row == start.row then cut start.col len else 0) ≡ cut (from_col start row) len
  cut_from row len = ground arith

  row_piece-last :
      (row : ℕ)
      → row ≡ end.row
      → from_col start row ≤ end.col
      → row_piece b start end row ++ drop end.col (line_at b row)
        ≡ drop (from_col start row) (line_at b row)
  unfolding row_piece
  row_piece-last row e h =
      let t : (row == end.row) ≡ true = ground arith in
      rw (line_length-eq b row (omega arith), cut_from row (length (line_at b row)), t)
        (piece-cut (line_at b row) (from_col start row) end.col h)

  row_piece-whole :
      (row : ℕ)
      → row < end.row
      → row_piece b start end row ≡ drop (from_col start row) (line_at b row)
  unfolding row_piece
  row_piece-whole row h =
      let t : (row == end.row) ≡ false = ground arith in
      rw (line_length-eq b row (omega arith), cut_from row (length (line_at b row)), t)
        (piece_whole (line_at b row) (from_col start row))

  module _ (ordered : start.row ≡ end.row → start.col ≤ end.col) where
    copy_rows-last :
        (row : ℕ)
        → row ≡ end.row
        → copy_rows 1 b start end row ++ after b.lines end.row end.col
          ≡ after b.lines row (from_col start row)
    copy_rows-last row e =
        let t : ltb row end.row ≡ false = ground arith in
        let col : from_col start row ≤ end.col = ground arith in
        ap (λ p. p ++ after b.lines end.row end.col)
          (step ∙ flag t ∙ append-nil (row_piece b start end row))
        ∙ ap (row_piece b start end row ++◌)
            (ap (λ r. after b.lines r end.col) (sym e) ∙ after-eq b.lines row end.col (omega arith))
        ∙ sym (append_assoc (row_piece b start end row) (drop end.col (line_at b row)) _)
        ∙ ap (λ p. p ++ tail_text (drop (suc row) b.lines)) (row_piece-last row e col)
        ∙ sym (after-eq b.lines row (from_col start row) (omega arith))
      where
        step :
            copy_rows 1 b start end row
            ≡ row_piece b start end row ++ ((if ltb row end.row then 10 ∷ [] else []) ++ [])
        step = unfold copy_rows in refl

        flag :
            ltb row end.row ≡ false
            → row_piece b start end row ++ ((if ltb row end.row then 10 ∷ [] else []) ++ [])
              ≡ row_piece b start end row ++ []
        flag t = ap (λ v. row_piece b start end row ++ ((if v then 10 ∷ [] else []) ++ [])) t

    copy_rows-next :
        (k row : ℕ)
        → row < end.row
        → start.row ≤ row
        → copy_rows (suc k) b start end (suc row) ++ after b.lines end.row end.col
          ≡ after b.lines (suc row) (from_col start (suc row))
        → copy_rows (suc (suc k)) b start end row ++ after b.lines end.row end.col
          ≡ after b.lines row (from_col start row)
    copy_rows-next k row h g ih =
        let t : ltb row end.row ≡ true = ground arith in
        let next : from_col start (suc row) ≡ 0 = ground arith in
        step
        ∙ rw (t, row_piece-whole row h)
            (append_assoc (drop (from_col start row) (line_at b row)) _ _
              ∙ ap (λ rest. drop (from_col start row) (line_at b row) ++ 10 ∷ rest)
                  (ih ∙ ap (after b.lines (suc row)) next)
              ∙ sym (after-row b.lines row (from_col start row) (omega arith)))
      where
        step :
            copy_rows (suc (suc k)) b start end row ++ after b.lines end.row end.col
            ≡ (row_piece b start end row
                ++ ((if ltb row end.row then 10 ∷ [] else [])
                    ++ copy_rows (suc k) b start end (suc row)))
              ++ after b.lines end.row end.col
        step = unfold copy_rows in refl

    copy_rows-after :
        (k row : ℕ)
        → start.row ≤ row
        → row + k ≡ end.row
        → copy_rows (suc k) b start end row ++ after b.lines end.row end.col
          ≡ after b.lines row (from_col start row)
    copy_rows-after zero row h e = copy_rows-last row (omega arith)
    copy_rows-after (suc k) row h e =
        copy_rows-next k row (omega arith) h
          (copy_rows-after k (suc row) (omega arith) (omega arith))

    -- The copied bytes and what stands behind the region are what stands behind its start.
    region_bytes-after :
        start.row ≤ end.row
        → region_bytes b start end ++ after b.lines end.row end.col
          ≡ after b.lines start.row start.col
    unfolding region_bytes
    region_bytes-after h =
        let k : suc end.row - start.row ≡ suc (end.row - start.row) = omega arith in
        let c : from_col start start.row ≡ start.col = ground arith in
        rw k (
          copy_rows-after (end.row - start.row) start.row (omega arith) (omega arith)
          ∙ ap (after b.lines start.row) c)

    -- For two positions in order, the second on a line of the buffer, the text is what stands
    -- before the first, the bytes that `editor_copy_region_text` copies, and what stands from the
    -- second on.
    pub text-region_bytes :
        start.row ≤ end.row
        → before b.lines start.row start.col
            ++ (region_bytes b start end ++ after b.lines end.row end.col)
          ≡ text b.lines
    text-region_bytes h =
        ap (before b.lines start.row start.col ++◌) (region_bytes-after h)
        ∙ before-append-after b.lines start.row start.col (omega arith)
