-- ===== src/Search/Line.antt =====
-- What the searches in one line of src/input.c find.
use ved.Common.{
  ℕ, zero, suc, ◌+◌, ◌-◌, ◌≤◌, ◌<◌, ◌≡◌, ◌≢◌, refl, inl, inr, true, false, ◌||◌, Option, none, some,
  List, [], ◌∷◌, arith, ltb, ◌==◌, length, drop, lt_or_le, if_cases, min,
}
use ved.Buffer.{clamp}
use ved.Search.{matches_at, first_match, line_search_forward, last_match, line_search_backward}

-- The needle stands at this column of the line, without regard to case.
abbrev pub At : List ℕ → List ℕ → ℕ → Type 0
At line needle col = matches_at (drop col line) needle ≡ true

-- What a search for the first match from `from` on, before `to`, may answer.
abbrev pub IsFirst : List ℕ → List ℕ → ℕ → ℕ → Option ℕ → Type 0
IsFirst line needle from to none = (i : ℕ) → from ≤ i → i < to → ¬ At line needle i
IsFirst line needle from to (some col) =
    (from ≤ col)
    × (col < to)
    × At line needle col
    × ((i : ℕ) → from ≤ i → i < col → ¬ At line needle i)

first_match-IsFirst :
    (k : ℕ) (line needle : List ℕ) (col : ℕ)
    → IsFirst line needle col (col + k) (first_match k line needle col)
unfolding first_match
first_match-IsFirst zero line needle col = λ i p q m. omega arith
first_match-IsFirst (suc k) line needle col =
    if_cases (IsFirst line needle col (col + suc k)) (matches_at (drop col line) needle)
      (λ h. (omega arith, omega arith, h, λ i p q m. omega arith))
      (λ h.
        later (first_match k line needle (suc col)) (first_match-IsFirst k line needle (suc col)) h)
  where
    not_here :
        (i : ℕ) → matches_at (drop col line) needle ≡ false → col ≤ i → At line needle i → col < i
    not_here i h p m = elim (lt_or_le col i) [
      | inl q ↦ q
      | inr q ↦ let e : i ≡ col = omega arith in let m' = rw e at m in cc
    ]

    later :
        (found : Option ℕ)
        → IsFirst line needle (suc col) (suc col + k) found
        → matches_at (drop col line) needle ≡ false
        → IsFirst line needle col (col + suc k) found
    later none f h = λ i p q m. f i (not_here i h p m) (omega arith) m
    later (some c) (low, high, m, before) h =
        (omega arith, omega arith, m, λ i p q n. before i (not_here i h p n) q n)

-- For a needle that is not empty, `line_search_forward` answers the first column from `start` on at
-- which the needle stands whole in the line, and nothing if there is none.
pub line_search_forward-IsFirst :
    (line needle : List ℕ) (start : ℕ)
    → needle ≢ []
    → IsFirst line needle start
        (suc (length line) - length needle)
        (line_search_forward line start needle)
line_search_forward-IsFirst line [] start n = absurd (n refl)
line_search_forward-IsFirst line (c ∷ needle) start n =
    unfold line_search_forward in
    if_cases (IsFirst line (c ∷ needle) start to)
      (length (c ∷ needle) == 0 || ltb (length line) (length (c ∷ needle)))
      (λ short i p q m. ground arith)
      (λ long.
        if_cases (IsFirst line (c ∷ needle) start to)
          (ltb (length line - length (c ∷ needle)) start) (λ past i p q m. ground arith)
          (λ fits.
            let k = suc (length line - length (c ∷ needle)) - start in
            let e : start + k ≡ to = ground arith in
            rw e at (first_match-IsFirst k line (c ∷ needle) start)))
  where
    to : ℕ
    to = suc (length line) - length (c ∷ needle)

-- What a search for the last match before `to` may answer.
abbrev pub IsLast : List ℕ → List ℕ → ℕ → Option ℕ → Type 0
IsLast line needle to none = (i : ℕ) → i < to → ¬ At line needle i
IsLast line needle to (some col) =
    (col < to) × At line needle col × ((i : ℕ) → col < i → i < to → ¬ At line needle i)

last_match-IsLast :
    (k : ℕ) (line needle : List ℕ) (col to : ℕ) (found : Option ℕ)
    → col + k ≡ to
    → IsLast line needle col found
    → IsLast line needle to (last_match k line needle col found)
unfolding last_match
last_match-IsLast zero line needle col to found e f = let e' : col ≡ to = omega arith in rw e' at f
last_match-IsLast (suc k) line needle col to found e f =
    last_match-IsLast k line needle (suc col) to _ (omega arith) (
      if_cases (IsLast line needle (suc col)) (matches_at (drop col line) needle)
        (λ h. (omega arith, h, λ i p q m. omega arith)) (λ h. kept found f h))
  where
    not_here :
        (i : ℕ)
        → matches_at (drop col line) needle ≡ false
        → i < suc col
        → At line needle i
        → i < col
    not_here i h p m = elim (lt_or_le i col) [
      | inl q ↦ q
      | inr q ↦ let e : i ≡ col = omega arith in let m' = rw e at m in cc
    ]

    kept :
        (old : Option ℕ)
        → IsLast line needle col old
        → matches_at (drop col line) needle ≡ false
        → IsLast line needle (suc col) old
    kept none f h = λ i p m. f i (not_here i h p m) m
    kept (some c) (high, m, behind) h = (omega arith, m, λ i p q n. behind i p (not_here i h q n) n)

-- For a needle that is not empty, `line_search_backward` answers the last column up to `end_col` at
-- which the needle stands whole in the line, and nothing if there is none.
pub line_search_backward-IsLast :
    (line needle : List ℕ) (end_col : ℕ)
    → needle ≢ []
    → IsLast line needle
        (min (suc end_col) (suc (length line) - length needle))
        (line_search_backward line end_col needle)
line_search_backward-IsLast line [] end_col n = absurd (n refl)
line_search_backward-IsLast line (c ∷ needle) end_col n =
    unfold line_search_backward in
    if_cases (IsLast line (c ∷ needle) to)
      (length (c ∷ needle) == 0 || ltb (length line) (length (c ∷ needle)))
      (λ short i p m. ground arith)
      (λ long.
        last_match-IsLast (suc (clamp (length line - length (c ∷ needle)) end_col)) line
          (c ∷ needle) 0 to none (ground arith) (λ i p m. omega arith))
  where
    to : ℕ
    to = min (suc end_col) (suc (length line) - length (c ∷ needle))
