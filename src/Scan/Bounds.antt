-- ===== src/Scan/Bounds.antt =====
-- What the scanning loops pass, and that they end by their own test within the rounds that the model
-- gives them.
use ved.Common.{
  ℕ, zero, suc, ◌+◌, ◌≤◌, ◌<◌, ◌≡◌, refl, length, lt_or_le, ◌⊎◌, inl, inr, Bool, true, false, ◌&&◌,
  not, List, arith, ltb, Bool-cases,
}
use ved.Utf8.{byte_at, next_boundary, prev_boundary}
use ved.Utf8.Boundary.{
  Boundary, not-Inside, next_boundary_bounds, next_boundary_lem, prev_boundary-le,
}
use ved.Scan.{forward_rounds, scan_forward, back_rounds, scan_back}

forward_rounds_bounds :
    (k : ℕ) (stop : ℕ → Bool) (line : List ℕ) (len col : ℕ)
    → col ≤ len
    → (col ≤ forward_rounds k stop line len col) × (forward_rounds k stop line len col ≤ len)
unfolding forward_rounds
forward_rounds_bounds zero stop line len col h = omega arith
forward_rounds_bounds (suc k) stop line len col h = ground (
  arith,
  next_boundary_bounds line len col,
  forward_rounds_bounds k stop line len (next_boundary line len col),
)

pub scan_forward_bounds :
    (stop : ℕ → Bool) (line : List ℕ) (len col : ℕ)
    → col ≤ len
    → (col ≤ scan_forward stop line len col) × (scan_forward stop line len col ≤ len)
unfolding scan_forward
scan_forward_bounds stop line len col h = forward_rounds_bounds len stop line len col h

forward_rounds-end :
    (k : ℕ) (stop : ℕ → Bool) (line : List ℕ) (len col : ℕ)
    → col ≤ len
    → len ≤ col + k
    → (forward_rounds k stop line len col ≡ len)
      ⊎ (stop (byte_at line (forward_rounds k stop line len col)) ≡ true)
unfolding forward_rounds
forward_rounds-end zero stop line len col h p = inl (omega arith)
forward_rounds-end (suc k) stop line len col h p =
    elim (Bool-cases (ltb col len && not (stop (byte_at line col)))) [
      | inl go ↦
          let inside : col < len = ground arith in
          let (up, fits) = next_boundary_bounds line len col inside in
          rw go (forward_rounds-end k stop line len (next_boundary line len col) fits (omega arith))
      | inr over ↦ rw over (ended over)
    ]
  where
    ended :
        (ltb col len && not (stop (byte_at line col))) ≡ false
        → (col ≡ len) ⊎ (stop (byte_at line col) ≡ true)
    ended over = elim (Bool-cases (stop (byte_at line col))) [
      | inl s ↦ inr s
      | inr s ↦ inl (ground arith)
    ]

-- A column at which a scan from another column can stand.
abbrev pub Reached : List ℕ → ℕ → ℕ → Type 0
Reached line from i = (i ≡ from) ⊎ Boundary line i

-- No character that starts from one column on and before another one stops the scan.
abbrev pub Passed : (ℕ → Bool) → List ℕ → ℕ → ℕ → Type 0
Passed stop line from to =
    (i : ℕ) → from ≤ i → i < to → Reached line from i → stop (byte_at line i) ≡ false

-- A round: a character is passed, and those behind it.
Passed-next :
    (stop : ℕ → Bool) (line : List ℕ) (col to : ℕ)
    → col < length line
    → stop (byte_at line col) ≡ false
    → Passed stop line (next_boundary line (length line) col) to
    → Passed stop line col to
Passed-next stop line col to h free rest i p q (inl e) = rw e free
Passed-next stop line col to h free rest i p q (inr b) =
    let next = next_boundary line (length line) col in
    let (up, _, _, inside) = next_boundary_lem line col h in
    elim (lt_or_le i next) [
      | inr r ↦ rest i r q (inr b)
      | inl r ↦ elim (lt_or_le col i) [
        | inl t ↦ absurd (not-Inside line col next i inside b t r)
        | inr t ↦ let e : i ≡ col = omega arith in rw e free
      ]
    ]

forward_rounds-Passed :
    (k : ℕ) (stop : ℕ → Bool) (line : List ℕ) (col : ℕ)
    → Passed stop line col (forward_rounds k stop line (length line) col)
unfolding forward_rounds
forward_rounds-Passed zero stop line col = λ i p q r. absurd (omega arith)
forward_rounds-Passed (suc k) stop line col =
    let next = next_boundary line (length line) col in
    elim (Bool-cases (ltb col (length line) && not (stop (byte_at line col)))) [
      | inl go ↦ rw go (
          Passed-next stop line col (forward_rounds k stop line (length line) next) (ground arith)
            (ground arith) (forward_rounds-Passed k stop line next))
      | inr over ↦ rw over (λ i p q r. absurd (omega arith))
    ]

forward_rounds-Reached :
    (k : ℕ) (stop : ℕ → Bool) (line : List ℕ) (col : ℕ)
    → Reached line col (forward_rounds k stop line (length line) col)
unfolding forward_rounds
forward_rounds-Reached zero stop line col = inl refl
forward_rounds-Reached (suc k) stop line col =
    let next = next_boundary line (length line) col in
    elim (Bool-cases (ltb col (length line) && not (stop (byte_at line col)))) [
      | inl go ↦
          let (up, fits, start, inside) = next_boundary_lem line col (ground arith) in
          rw go (elim (forward_rounds-Reached k stop line next) [
            | inl e ↦ inr (rw e start)
            | inr b ↦ inr b
          ])
      | inr over ↦ rw over (inl refl)
    ]

-- From a column of the line, a forward scan goes to the first character that stops it, or to the end
-- of the line if there is none: it moves forward within the line, passes no character that stops it,
-- and ends where it began or at a boundary, at the end of the line or at a byte that stops it.
pub scan_forward_lem :
    (stop : ℕ → Bool) (line : List ℕ) (col : ℕ)
    → col ≤ length line
    → let c = scan_forward stop line (length line) col in
      (col ≤ c)
      × (c ≤ length line)
      × Reached line col c
      × Passed stop line col c
      × ((c ≡ length line) ⊎ (stop (byte_at line c) ≡ true))
scan_forward_lem stop line col h = (
  (scan_forward_bounds stop line (length line) col h).0,
  (scan_forward_bounds stop line (length line) col h).1,
  unfold scan_forward in forward_rounds-Reached (length line) stop line col,
  unfold scan_forward in forward_rounds-Passed (length line) stop line col,
  unfold scan_forward in
      forward_rounds-end (length line) stop line (length line) col h (omega arith),
)

back_rounds-le :
    (k : ℕ) (stop : ℕ → Bool) (line : List ℕ) (col : ℕ) → back_rounds k stop line col ≤ col
unfolding back_rounds
back_rounds-le zero stop line col = omega arith
back_rounds-le (suc k) stop line col =
    ground (arith, prev_boundary-le line col, back_rounds-le k stop line (prev_boundary line col))

pub scan_back-le : (stop : ℕ → Bool) (line : List ℕ) (col : ℕ) → scan_back stop line col ≤ col
unfolding scan_back
scan_back-le stop line col = back_rounds-le col stop line col
