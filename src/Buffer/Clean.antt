-- ===== src/Buffer/Clean.antt =====
-- The lines of src/buffer.c are C strings without newlines, whatever the edits do.
use ved.Common.{
  ℕ, zero, suc, ◌<◌, ◌≢◌, List, [], ◌∷◌, ◌++◌, arith, leb, ◌==◌, if_cases, take, drop, set,
}
use ved.Common.All.{All, All-append, All-take, All-drop, All-set, get_or-All}
use ved.Buffer.{
  Buffer, line_count, line_at, line_length, clamp, insert_char, insert_newline, insert_tab,
  join_rows, delete_char, delete_forward, delete_range, delete_ordered, delete_region,
}
use ved.Buffer.Rows.{insert_row, remove_rows}

-- A byte that can stand in a line.
abbrev pub LineByte : ℕ → Type 0
LineByte c = (c ≢ 0) × (c ≢ 10) × (c < 256)

unfoldable pub CleanLine : List ℕ → Type 0
CleanLine line = All LineByte line

unfoldable pub CleanLines : List (List ℕ) → Type 0
CleanLines lines = All CleanLine lines

-- The lines as predicates that stay shut.
cut-CleanLine :
    (front back : List ℕ) (m n : ℕ)
    → CleanLine front
    → CleanLine back
    → CleanLine (take m front ++ drop n back)
unfolding CleanLine
cut-CleanLine front back m n h k =
    All-append LineByte (take m front) (drop n back) (All-take LineByte m front h)
      (All-drop LineByte n back k)

insert-CleanLine :
    (line : List ℕ) (c n : ℕ)
    → LineByte c
    → CleanLine line
    → CleanLine (take n line ++ c ∷ drop n line)
unfolding CleanLine
insert-CleanLine line c n p h =
    All-append LineByte (take n line) (c ∷ drop n line) (All-take LineByte n line h)
      (p, All-drop LineByte n line h)

append-CleanLine :
    (front back : List ℕ) → CleanLine front → CleanLine back → CleanLine (front ++ back)
unfolding CleanLine
append-CleanLine = All-append LineByte

pub take-CleanLine : (n : ℕ) (line : List ℕ) → CleanLine line → CleanLine (take n line)
unfolding CleanLine
take-CleanLine = All-take LineByte

pub drop-CleanLine : (n : ℕ) (line : List ℕ) → CleanLine line → CleanLine (drop n line)
unfolding CleanLine
drop-CleanLine = All-drop LineByte

pub line_at-CleanLine : (b : Buffer) (row : ℕ) → CleanLines b.lines → CleanLine (line_at b row)
unfolding CleanLine CleanLines
line_at-CleanLine b row h = get_or-All CleanLine b.lines row [] tt h

pub set-CleanLines :
    (lines : List (List ℕ)) (row : ℕ) (line : List ℕ)
    → CleanLine line
    → CleanLines lines
    → CleanLines (set lines row line)
unfolding CleanLines
set-CleanLines lines row line p h = All-set CleanLine lines row line p h

insert_row-CleanLines :
    (lines : List (List ℕ)) (at : ℕ) (line : List ℕ)
    → CleanLine line
    → CleanLines lines
    → CleanLines (insert_row lines at line)
unfolding CleanLines
insert_row-CleanLines lines at line p h =
    All-append CleanLine (take at lines) (line ∷ drop at lines) (All-take CleanLine at lines h)
      (p, All-drop CleanLine at lines h)

remove_rows-CleanLines :
    (lines : List (List ℕ)) (from to : ℕ)
    → CleanLines lines
    → CleanLines (remove_rows lines from to)
unfolding CleanLines
remove_rows-CleanLines lines from to h =
    All-append CleanLine (take from lines) (drop to lines) (All-take CleanLine from lines h)
      (All-drop CleanLine to lines h)

module _ (b : Buffer) (h : CleanLines b.lines) where
  pub insert_char-CleanLines :
      (row col ch : ℕ) → LineByte ch → CleanLines (insert_char b row col ch).lines
  unfolding insert_char
  insert_char-CleanLines row col ch p =
      grind (arith, set-CleanLines, insert-CleanLine, line_at-CleanLine)

  pub insert_newline-CleanLines : (row col : ℕ) → CleanLines (insert_newline b row col).lines
  unfolding insert_newline
  insert_newline-CleanLines row col =
      let line = line_at b row in
      let clean = line_at-CleanLine b row h in
      let c = clamp (line_length b row) col in
      if_cases (λ b'. CleanLines (Buffer.lines b')) (leb (line_count b) row) (λ _. h)
        (λ _.
          insert_row-CleanLines (set b.lines row (take c line)) (suc row) (drop c line)
            (drop-CleanLine c line clean)
            (set-CleanLines b.lines row (take c line) (take-CleanLine c line clean) h))

  pub join_rows-CleanLines : (upper : ℕ) → CleanLines (join_rows b upper).lines
  join_rows-CleanLines upper = remove_rows-CleanLines _ (suc upper) (suc (suc upper)) (
      set-CleanLines b.lines upper _
        (append-CleanLine (line_at b upper) (line_at b (suc upper)) (line_at-CleanLine b upper h)
          (line_at-CleanLine b (suc upper) h))
        h)

  pub delete_char-CleanLines : (row col : ℕ) → CleanLines (delete_char b row col).lines
  unfolding delete_char
  delete_char-CleanLines zero zero = h
  delete_char-CleanLines (suc row) zero = ground (arith, join_rows-CleanLines row)
  delete_char-CleanLines row (suc col) =
      grind (arith, set-CleanLines, cut-CleanLine, line_at-CleanLine)

  pub delete_forward-CleanLines : (row col : ℕ) → CleanLines (delete_forward b row col).lines
  unfolding delete_forward
  delete_forward-CleanLines row col =
      grind (arith, set-CleanLines, cut-CleanLine, line_at-CleanLine, join_rows-CleanLines)

  pub delete_range-CleanLines : (row from to : ℕ) → CleanLines (delete_range b row from to).lines
  unfolding delete_range
  delete_range-CleanLines row from to =
      grind (arith, set-CleanLines, cut-CleanLine, line_at-CleanLine)

  delete_ordered-CleanLines : (r c r' c' : ℕ) → CleanLines (delete_ordered b r c r' c').lines
  unfolding delete_ordered
  delete_ordered-CleanLines r c r' c' =
      if_cases (λ b'. CleanLines (Buffer.lines b')) (r == r') (λ _. delete_range-CleanLines r c c')
        (λ _. remove_rows-CleanLines _ (suc r) (suc r') (
          set-CleanLines b.lines r _
            (cut-CleanLine (line_at b r) (line_at b r') (clamp (line_length b r) c)
              (clamp (line_length b r') c') (line_at-CleanLine b r h) (line_at-CleanLine b r' h))
            h))

  pub delete_region-CleanLines : (r c r' c' : ℕ) → CleanLines (delete_region b r c r' c').lines
  unfolding delete_region
  delete_region-CleanLines r c r' c' = grind (arith, delete_ordered-CleanLines)

pub insert_tab-CleanLines :
    (b : Buffer) (row col : ℕ) → CleanLines b.lines → CleanLines (insert_tab b row col).lines
unfolding insert_tab
insert_tab-CleanLines b row col h = grind (arith, insert_char-CleanLines)
