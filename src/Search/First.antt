-- ===== src/Search/First.antt =====
-- What the searches of src/input.c over the rows find.
use ved.Common.{
  ℕ, zero, suc, ◌+◌, ◌-◌, ◌≤◌, ◌<◌, ◌≡◌, ◌≢◌, ◌⊎◌, inl, inr, refl, true, Option, none, some, List,
  [], ◌∷◌, arith, ◌==◌, length, drop, length-drop, lt_or_le, if◌then◌else◌,
}
use ved.Buffer.{Buffer, line_count, line_at, line_length, clamp}
use ved.Frame.{Frame}
use ved.Search.{matches_at, line_search_forward, forward_rows, search_forward_from}
use ved.Search.Line.{At, IsFirst, line_search_forward-IsFirst}

matches_at-fits :
    (text needle : List ℕ) → matches_at text needle ≡ true → length needle ≤ length text
unfolding matches_at
matches_at-fits text [] m = omega arith
matches_at-fits [] (n ∷ needle) m = cc
matches_at-fits (c ∷ text) (n ∷ needle) m = ground (arith, matches_at-fits text needle)

-- Where a needle that is not empty stands in a line, it ends in the line.
pub At-fits :
    (line needle : List ℕ) (col : ℕ)
    → needle ≢ []
    → At line needle col
    → col + length needle ≤ length line
At-fits line [] col n m = absurd (n refl)
At-fits line (c ∷ needle) col n m =
    omega (arith, matches_at-fits (drop col line) (c ∷ needle) m, length-drop {0} col line)

pub length_pos : (needle : List ℕ) → needle ≢ [] → 0 < length needle
length_pos [] n = absurd (n refl)
length_pos (c ∷ needle) n = omega arith

-- The position (row, col) is (r, c) or behind it; and it is behind it.
abbrev pub AtOrBehind : ℕ → ℕ → ℕ → ℕ → Type 0
AtOrBehind r c row col = (r < row) ⊎ ((row ≡ r) × (c ≤ col))

abbrev pub Behind : ℕ → ℕ → ℕ → ℕ → Type 0
Behind r c row col = (r < row) ⊎ ((row ≡ r) × (c < col))

module _ (b : Buffer) (query : List ℕ) (r c : ℕ) where
  -- What a forward search from (r, c) may answer.
  abbrev pub IsFirstFrom : Option Frame → Type 0
  IsFirstFrom none =
      (row col : ℕ) → row < line_count b → AtOrBehind r c row col → ¬ At (line_at b row) query col
  IsFirstFrom (some f) =
      (f.row < line_count b)
      × AtOrBehind r c f.row f.col
      × At (line_at b f.row) query f.col
      × ((row col : ℕ)
          → AtOrBehind r c row col
          → Behind row col f.row f.col
          → ¬ At (line_at b row) query col)

  -- The same in one row.
  abbrev RowFirst : ℕ → Option ℕ → Type 0
  RowFirst row none = (col : ℕ) → AtOrBehind r c row col → ¬ At (line_at b row) query col
  RowFirst row (some f) =
      AtOrBehind r c row f
      × At (line_at b row) query f
      × ((col : ℕ) → AtOrBehind r c row col → col < f → ¬ At (line_at b row) query col)

  abbrev from_col : ℕ → ℕ
  from_col row = if row == r then clamp (line_length b row) c else 0

  from_col-le : (row col : ℕ) → AtOrBehind r c row col → from_col row ≤ col
  unfolding line_length
  from_col-le row col p = ground arith

  from_col-behind :
      (row col : ℕ)
      → r ≤ row
      → row < line_count b
      → from_col row ≤ col
      → col < length (line_at b row)
      → AtOrBehind r c row col
  unfolding line_length
  from_col-behind row col h k low high = ground arith

  module _ (n : query ≢ []) where
    in_line : (row col : ℕ) → At (line_at b row) query col → col < length (line_at b row)
    in_line row col m = omega (arith, At-fits (line_at b row) query col n m, length_pos query n)

    line-RowFirst :
        (row : ℕ)
        → r ≤ row
        → row < line_count b
        → (found : Option ℕ)
        → IsFirst
            (line_at b row)
            query
            (from_col row)
            (suc (length (line_at b row)) - length query)
            found
        → RowFirst row found
    line-RowFirst row h k none f = λ col p m.
        f col (from_col-le row col p) (omega (arith, At-fits (line_at b row) query col n m)) m
    line-RowFirst row h k (some col) (low, high, m, before) = (
      from_col-behind row col h k low (in_line row col m),
      m,
      λ i p q m'. before i (from_col-le row i p) q m',
    )

    -- What the loop may answer from `row` on.
    abbrev FromRow : ℕ → Option Frame → Type 0
    FromRow row none =
        (row' col : ℕ)
        → row ≤ row'
        → row' < line_count b
        → AtOrBehind r c row' col
        → ¬ At (line_at b row') query col
    FromRow row (some f) =
        (row ≤ f.row)
        × (f.row < line_count b)
        × AtOrBehind r c f.row f.col
        × At (line_at b f.row) query f.col
        × ((row' col : ℕ)
            → row ≤ row'
            → AtOrBehind r c row' col
            → Behind row' col f.row f.col
            → ¬ At (line_at b row') query col)

    -- A row and the rows behind it.
    row-FromRow :
        (row : ℕ) (found : Option ℕ) (rest : Option Frame)
        → row < line_count b
        → RowFirst row found
        → FromRow (suc row) rest
        → FromRow row
            (elim found [ some col ↦ some (record { row = row; col = col }) | none ↦ rest ])
    row-FromRow row (some col) rest k (p, m, before) later = (
      omega arith,
      k,
      p,
      m,
      λ row' i h q be m'. elim (lt_or_le row row') [
        | inl past ↦ omega arith
        | inr here ↦
            let e : row' ≡ row = omega arith in
            let m2 = rw e at m' in let q2 = rw e at q in before i q2 (omega arith) m2
      ],
    )
    row-FromRow row none none k f later = λ row' i h k' p m. elim (lt_or_le row row') [
      | inl past ↦ later row' i past k' p m
      | inr here ↦
          let e : row' ≡ row = omega arith in let m2 = rw e at m in let p2 = rw e at p in f i p2 m2
    ]
    row-FromRow row none (some g) k f (h, k', p, m, before) = (
      omega arith,
      k',
      p,
      m,
      λ row' i h' q be m'. elim (lt_or_le row row') [
        | inl past ↦ before row' i past q be m'
        | inr here ↦
            let e : row' ≡ row = omega arith in
            let m2 = rw e at m' in let q2 = rw e at q in f i q2 m2
      ],
    )

    forward_rows-FromRow :
        (k row : ℕ)
        → row + k ≡ line_count b
        → r ≤ row
        → FromRow row (forward_rows k b query r c row)
    unfolding forward_rows
    forward_rows-FromRow zero row e h = λ row' col p q a m. omega arith
    forward_rows-FromRow (suc k) row e h =
        row-FromRow row (line_search_forward (line_at b row) (from_col row) query)
          (forward_rows k b query r c (suc row)) (omega arith)
          (line-RowFirst row h (omega arith)
            (line_search_forward (line_at b row) (from_col row) query)
            (line_search_forward-IsFirst (line_at b row) query (from_col row) n))
          (forward_rows-FromRow k (suc row) (omega arith) (omega arith))

    at_start-IsFirstFrom : (found : Option Frame) → FromRow r found → IsFirstFrom found
    at_start-IsFirstFrom none f = λ row col k p m. f row col (omega arith) k p m
    at_start-IsFirstFrom (some g) (h, k, p, m, before) =
        (k, p, m, λ row col q be m'. before row col (omega arith) q be m')

-- For a query that is not empty, from a row of the buffer, `search_forward_from` answers the first
-- position, at the start or behind it, at which the query stands whole in a line, without regard to
-- case; and nothing if there is none.
pub search_forward_from-IsFirstFrom :
    (b : Buffer) (query : List ℕ) (start_row start_col : ℕ)
    → query ≢ []
    → start_row < line_count b
    → IsFirstFrom b query start_row start_col (search_forward_from b query start_row start_col)
unfolding search_forward_from
search_forward_from-IsFirstFrom b query start_row start_col n h =
    at_start-IsFirstFrom b query start_row start_col n _ (
      forward_rows-FromRow b query start_row start_col n (line_count b - start_row) start_row
        (omega arith) (omega arith))
