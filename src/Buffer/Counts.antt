-- ===== src/Buffer/Counts.antt =====
-- How the edits of src/buffer.c change the number of lines.
use ved.Common.{
  ℕ, suc, ◌≤◌, ◌<◌, ◌≡◌, refl, true, false, List, arith, length, set, length-set, length-append,
  length-take, length-drop, if_cases, ltb, leb, ◌==◌, ◌||◌, ◌&&◌,
}
use ved.Os.{Os}
use ved.Buffer.{
  Buffer, clamp, line_length, line_count, append_line, load_file, insert_char, insert_newline,
  insert_tab, join_rows, delete_forward, delete_range, delete_ordered, delete_region,
}

pub count-set :
    (b : Buffer) (row : ℕ) (line : List ℕ) → length (set b.lines row line) ≡ line_count b
count-set b row line = length-set b.lines row line

pub count-insert_char :
    (b : Buffer) (row col ch : ℕ) → line_count (insert_char b row col ch) ≡ line_count b
unfolding insert_char
count-insert_char b row col ch =
    if_cases (λ nb. line_count nb ≡ line_count b) (leb (line_count b) row) (λ _. refl)
      (λ _. count-set b row _)

pub count-insert_tab : (b : Buffer) (row col : ℕ) → line_count (insert_tab b row col) ≡ line_count b
unfolding insert_tab
count-insert_tab b row col = ground (
  arith,
  count-insert_char b row col 9,
  count-insert_char b row col 32,
  count-insert_char (insert_char b row col 32) row (suc col) 32,
)

pub count-insert_newline :
    (b : Buffer) (row col : ℕ)
    → row < line_count b
    → line_count (insert_newline b row col) ≡ suc (line_count b)
unfolding insert_newline
count-insert_newline b row col h =
    if_cases (λ nb. line_count nb ≡ suc (line_count b)) (leb (line_count b) row)
      (λ t. let l : leb (length b.lines) row ≡ true = t in absurd (ground arith))
      (λ _.
        rw (length-append, length-take, length-drop, length-set)
          (let h' : row < length b.lines = h in omega (arith, h')))

pub count-join_rows :
    (b : Buffer) (row : ℕ)
    → suc row < line_count b
    → suc (line_count (join_rows b row)) ≡ line_count b
count-join_rows b row h =
    rw (length-append, length-take, length-drop, length-set)
      (let h' : suc row < length b.lines = h in omega (arith, h'))

pub count-delete_forward :
    (b : Buffer) (row col : ℕ) → row < line_count b → row < line_count (delete_forward b row col)
unfolding delete_forward
count-delete_forward b row col h =
    if_cases (λ nb. row < line_count nb) (leb (line_count b) row) (λ _. h)
      (λ _.
        if_cases (λ nb. row < line_count nb) (clamp (line_length b row) col == line_length b row)
          (λ _.
            if_cases (λ nb. row < line_count nb) (leb (line_count b) (suc row)) (λ _. h)
              (λ n.
                let last : leb (length b.lines) (suc row) ≡ false = n in
                let below : suc row < line_count b = ground arith in
                omega (arith, below, count-join_rows b row below)))
          (λ _. rw (length-set) h))

pub count-delete_range :
    (b : Buffer) (row start end : ℕ) → line_count (delete_range b row start end) ≡ line_count b
unfolding delete_range
count-delete_range b row start end =
    if_cases (λ nb. line_count nb ≡ line_count b) (leb (line_count b) row) (λ _. refl)
      (λ _.
        if_cases (λ nb. line_count nb ≡ line_count b)
          (leb (clamp (line_length b row) end) (clamp (line_length b row) start)) (λ _. refl)
          (λ _. count-set b row _))

count-delete_ordered :
    (b : Buffer) (r c s d : ℕ)
    → r ≤ s
    → s < line_count b
    → r < line_count (delete_ordered b r c s d)
unfolding delete_ordered
count-delete_ordered b r c s d p h =
    if_cases (λ nb. r < line_count nb) (r == s)
      (λ _. let e = count-delete_range b r c d in omega (arith, e))
      (λ _. rw (length-append, length-take, length-drop, length-set) (omega arith))

pub count-delete_region :
    (b : Buffer) (r c s d : ℕ) → r ≤ s → r < line_count b → r < line_count (delete_region b r c s d)
unfolding delete_region
count-delete_region b r c s d p h =
    if_cases (λ nb. r < line_count nb) (leb (line_count b) r || leb (line_count b) s) (λ _. h)
      (λ g.
        let g' : (leb (length b.lines) r || leb (length b.lines) s) ≡ false = g in
        let inside : s < length b.lines = ground arith in
        if_cases (λ nb. r < line_count nb) (ltb s r || (r == s && ltb d c))
          (λ t.
            let same : s ≡ r = ground arith in
            let k = count-delete_ordered b s d r c (omega arith) h in omega (arith, same, k))
          (λ _. count-delete_ordered b r c s d p inside))

count-append_line : (b : Buffer) (line : List ℕ) → line_count b < line_count (append_line b line)
unfolding append_line
count-append_line b line = rw (length-append) (omega arith)

-- A buffer has a line after a file was loaded into it.
pub count-load_file :
    (os : Os) (b : Buffer) (path : List ℕ) → 0 < line_count b → 0 < line_count (load_file os b path)
unfolding load_file append_line
count-load_file os b path h = ground arith
