-- ===== src/Render/Offsets.antt =====
-- The offsets of the rows that src/render.c computes for the range of the query's cursor.
use ved.Common.{
  ℕ, zero, suc, ◌+◌, ◌≤◌, ◌<◌, ◌≡◌, refl, sym, ap, ◌∙◌, List, [], ◌∷◌, arith, length, length-append,
  get_or, ltb, lt→ltb, if◌then◌else◌,
}
use ved.Buffer.{Buffer, line_count, line_length}
use ved.Buffer.Refine.{line_length-eq}
use ved.Contents.{before}
use ved.Render.Highlight.{offsets_from, build_line_offsets}

-- The text before a row ends with the row above it.
length-before :
    (ls : List (List ℕ)) (row : ℕ)
    → suc row < length ls
    → length (before ls (suc row) 0) ≡ length (before ls row 0) + length (get_or ls row []) + 1
unfolding before
length-before [] row h = elim h [ ]
length-before (l ∷ []) row h = absurd (omega arith)
length-before (l ∷ m ∷ ls) zero h = omega (arith, length-append {0} l (10 ∷ []))
length-before (l ∷ m ∷ ls) (suc row) h = rw (length-append) (
    omega (
      arith,
      length-before (m ∷ ls) row (omega arith),
      length-append {0} l (10 ∷ before (m ∷ ls) row 0),
    ))

offsets_from-row :
    (k : ℕ) (b : Buffer) (row i : ℕ)
    → i < k
    → row + i < line_count b
    → get_or (offsets_from k b row (length (before b.lines row 0))) i 0
      ≡ length (before b.lines (row + i) 0)
unfolding offsets_from
offsets_from-row zero b row i p h = elim p [ ]
offsets_from-row (suc k) b row zero p h =
    ap (λ r. length (before b.lines r 0)) (let z : row ≡ row + 0 = omega arith in z)
offsets_from-row (suc k) b row (suc i) p h =
    ap (λ offset. get_or (offsets_from k b (suc row) offset) i 0) below
    ∙ offsets_from-row k b (suc row) i (omega arith) (omega arith)
    ∙ ap (λ r. length (before b.lines r 0)) (let z : suc row + i ≡ row + suc i = omega arith in z)
  where
    below :
        length (before b.lines row 0)
          + line_length b row
          + (if ltb (suc row) (line_count b) then 1 else 0)
        ≡ length (before b.lines (suc row) 0)
    below =
        rw (lt→ltb (suc row) (line_count b) (omega arith), line_length-eq b row (omega arith))
          (sym (length-before b.lines row (omega arith)))

before-start : (ls : List (List ℕ)) → length (before ls 0 0) ≡ 0
unfolding before
before-start [] = refl
before-start (l ∷ ls) = refl

-- `build_line_offsets` gives for each row up to the last the number of bytes of the text before it.
build_line_offsets-eq :
    (b : Buffer) (last_row row : ℕ)
    → row ≤ last_row
    → row < line_count b
    → get_or (build_line_offsets b last_row) row 0 ≡ length (before b.lines row 0)
unfolding build_line_offsets
build_line_offsets-eq b last_row row p h =
    ap (λ offset. get_or (offsets_from (suc last_row) b 0 offset) row 0)
      (sym (before-start b.lines))
    ∙ offsets_from-row (suc last_row) b 0 row (omega arith) (omega arith)
    ∙ ap (λ r. length (before b.lines r 0)) (let z : 0 + row ≡ row = omega arith in z)
