-- ===== src/Search/Last.antt =====
-- What the search backward of src/input.c over the rows finds.
use ved.Common.{
  ℕ, zero, suc, ◌+◌, ◌-◌, ◌≤◌, ◌<◌, ◌≡◌, ◌≢◌, ◌⊎◌, inl, inr, true, false, Option, none, some, List,
  [], arith, ltb, ◌==◌, length, lt_or_le, if_cases, if◌then◌else◌, min,
}
use ved.Buffer.{Buffer, line_count, line_at, line_length, clamp}
use ved.Frame.{Frame}
use ved.Search.{size_max, line_search_backward, backward_line, backward_rows, search_backward_from}
use ved.Search.Line.{At, IsLast, line_search_backward-IsLast}
use ved.Search.First.{At-fits, Behind}

-- The query at (row, col) ends before (r, c), or at it.
abbrev pub EndsBy : ℕ → ℕ → ℕ → ℕ → ℕ → Type 0
EndsBy size r c row col = (row < r) ⊎ ((row ≡ r) × (col + size ≤ c))

module _ (b : Buffer) (query : List ℕ) (r c : ℕ) where
  -- What a backward search from (r, c) may answer.
  abbrev pub IsLastBefore : Option Frame → Type 0
  IsLastBefore none =
      (row col : ℕ) → EndsBy (length query) r c row col → ¬ At (line_at b row) query col
  IsLastBefore (some f) =
      EndsBy (length query) r c f.row f.col
      × At (line_at b f.row) query f.col
      × ((row col : ℕ)
          → EndsBy (length query) r c row col
          → Behind f.row f.col row col
          → ¬ At (line_at b row) query col)

  -- The same in one row.
  abbrev RowLast : ℕ → Option ℕ → Type 0
  RowLast row none = (col : ℕ) → EndsBy (length query) r c row col → ¬ At (line_at b row) query col
  RowLast row (some f) =
      EndsBy (length query) r c row f
      × At (line_at b row) query f
      × ((col : ℕ) → EndsBy (length query) r c row col → f < col → ¬ At (line_at b row) query col)

  -- A search of the row up to `end_col`, where all that ends by (r, c) starts up to there.
  line-RowLast :
      (row end_col : ℕ)
      → query ≢ []
      → ((col : ℕ)
          → EndsBy (length query) r c row col
          → At (line_at b row) query col
          → col ≤ end_col)
      → ((col : ℕ) → col ≤ end_col → EndsBy (length query) r c row col)
      → (found : Option ℕ)
      → IsLast
          (line_at b row)
          query
          (min (suc end_col) (suc (length (line_at b row)) - length query))
          found
      → RowLast row found
  line-RowLast row end_col n reach back none f =
      λ col p m. f col (omega (arith, reach col p m, At-fits (line_at b row) query col n m)) m
  line-RowLast row end_col n reach back (some col) (high, m, behind) = (
    back col (omega arith),
    m,
    λ i p q m'. behind i q (omega (arith, reach i p m', At-fits (line_at b row) query i n m')) m',
  )

  module _ (n : query ≢ []) (short : (row : ℕ) → length (line_at b row) ≤ size_max)
      (k : r < line_count b) where
    same_row-RowLast : RowLast r (
        if ltb (clamp (line_length b r) c) (length query)
        then none
        else line_search_backward (line_at b r) (clamp (line_length b r) c - length query) query)
    unfolding line_length
    same_row-RowLast =
        if_cases (RowLast r) (ltb (clamp (line_length b r) c) (length query))
          (λ h col p m. ground (arith, At-fits (line_at b r) query col n m))
          (λ h.
            line-RowLast r (clamp (line_length b r) c - length query) n
              (λ col p m. ground (arith, At-fits (line_at b r) query col n m))
              (λ col p. ground arith) _ (line_search_backward-IsLast (line_at b r) query _ n))

    backward_line-RowLast : (row : ℕ) → row ≤ r → RowLast row (backward_line b query r c row)
    unfolding backward_line
    backward_line-RowLast row h = elim (lt_or_le row r) [
      | inl above ↦
          let e : (row == r) ≡ false = ground arith in
          rw e (
            line-RowLast row size_max n
              (λ col p m. omega (arith, short row, At-fits (line_at b row) query col n m))
              (λ col p. inl above) _ (line_search_backward-IsLast (line_at b row) query size_max n))
      | inr here ↦
          let e : row ≡ r = omega arith in
          let t : (r == r) ≡ true = ground arith in rw (e, t) same_row-RowLast
    ]

  -- What the loop may answer from `row` down.
  abbrev DownTo : ℕ → Option Frame → Type 0
  DownTo row none =
      (row' col : ℕ)
      → row' ≤ row
      → EndsBy (length query) r c row' col
      → ¬ At (line_at b row') query col
  DownTo row (some f) =
      (f.row ≤ row)
      × EndsBy (length query) r c f.row f.col
      × At (line_at b f.row) query f.col
      × ((row' col : ℕ)
          → row' ≤ row
          → EndsBy (length query) r c row' col
          → Behind f.row f.col row' col
          → ¬ At (line_at b row') query col)

  -- The first row, and a row with the rows before it.
  first-DownTo :
      (found : Option ℕ)
      → RowLast 0 found
      → DownTo 0 (elim found [ some col ↦ some (record { row = 0; col = col }) | none ↦ none ])
  first-DownTo none f = λ row' i h p m.
      let e : row' ≡ 0 = omega arith in let m2 = rw e at m in let p2 = rw e at p in f i p2 m2
  first-DownTo (some col) (p, m, behind) = (
    omega arith,
    p,
    m,
    λ row' i h q be m'.
        let e : row' ≡ 0 = omega arith in
        let m2 = rw e at m' in let q2 = rw e at q in behind i q2 (omega arith) m2,
  )

  row-DownTo :
      (row : ℕ) (found : Option ℕ) (rest : Option Frame)
      → RowLast (suc row) found
      → DownTo row rest
      → DownTo
          (suc row)
          (elim found [ some col ↦ some (record { row = suc row; col = col }) | none ↦ rest ])
  row-DownTo row (some col) rest (p, m, behind) before = (
    omega arith,
    p,
    m,
    λ row' i h q be m'.
        let e : row' ≡ suc row = omega arith in
        let m2 = rw e at m' in let q2 = rw e at q in behind i q2 (omega arith) m2,
  )
  row-DownTo row none none f before = λ row' i h p m. elim (lt_or_le row' (suc row)) [
    | inl above ↦ before row' i (omega arith) p m
    | inr here ↦
        let e : row' ≡ suc row = omega arith in
        let m2 = rw e at m in let p2 = rw e at p in f i p2 m2
  ]
  row-DownTo row none (some g) f (h, p, m, behind) = (
    omega arith,
    p,
    m,
    λ row' i h' q be m'. elim (lt_or_le row' (suc row)) [
      | inl above ↦ behind row' i (omega arith) q be m'
      | inr here ↦
          let e : row' ≡ suc row = omega arith in
          let m2 = rw e at m' in let q2 = rw e at q in f i q2 m2
    ],
  )

  backward_rows-DownTo :
      ((row : ℕ) → row ≤ r → RowLast row (backward_line b query r c row))
      → (row : ℕ) → row ≤ r
      → DownTo row (backward_rows b query r c row)
  unfolding backward_rows
  backward_rows-DownTo lines zero h = first-DownTo _ (lines 0 h)
  backward_rows-DownTo lines (suc row) h =
      row-DownTo row _ _ (lines (suc row) h) (backward_rows-DownTo lines row (omega arith))

  from_start-IsLastBefore : (found : Option Frame) → DownTo r found → IsLastBefore found
  from_start-IsLastBefore none f = λ row col p m. f row col (omega arith) p m
  from_start-IsLastBefore (some g) (h, p, m, behind) =
      (p, m, λ row col q be m'. behind row col (omega arith) q be m')

-- For a query that is not empty, from a row of the buffer, where no line is longer than SIZE_MAX,
-- `search_backward_from` answers the last position at which the query stands whole in a line,
-- without regard to case, and ends before the start or at it; and nothing if there is none.
pub search_backward_from-IsLastBefore :
    (b : Buffer) (query : List ℕ) (start_row start_col : ℕ)
    → query ≢ []
    → ((row : ℕ) → length (line_at b row) ≤ size_max)
    → start_row < line_count b
    → IsLastBefore b query start_row start_col (search_backward_from b query start_row start_col)
unfolding search_backward_from
search_backward_from-IsLastBefore b query start_row start_col n short h =
    from_start-IsLastBefore b query start_row start_col _ (
      backward_rows-DownTo b query start_row start_col
        (backward_line-RowLast b query start_row start_col n short h) start_row (omega arith))
