-- ===== src/Scan/Back.antt =====
-- What a backward scan passes, and where it ends.
use ved.Common.{
  ℕ, zero, suc, ◌≤◌, ◌<◌, ◌≡◌, lt_or_le, ◌⊎◌, inl, inr, Bool, true, false, ◌&&◌, not, List, arith,
  ltb, Bool-cases,
}
use ved.Utf8.{byte_at, prev_boundary}
use ved.Utf8.Boundary.{Boundary, not-Inside, prev_boundary_bounds, prev_boundary_lem}
use ved.Scan.{back_rounds, scan_back}
use ved.Scan.Bounds.{Passed, scan_back-le}

back_rounds-end :
    (k : ℕ) (stop : ℕ → Bool) (line : List ℕ) (col : ℕ)
    → col ≤ k
    → let c = back_rounds k stop line col in
      (c ≡ 0) ⊎ (stop (byte_at line (prev_boundary line c)) ≡ true)
unfolding back_rounds
back_rounds-end zero stop line col h = inl (omega arith)
back_rounds-end (suc k) stop line col h =
    elim (Bool-cases (ltb 0 col && not (stop (byte_at line (prev_boundary line col))))) [
      | inl go ↦
          let pos : 0 < col = ground arith in
          let down = prev_boundary_bounds line col pos in
          rw go (back_rounds-end k stop line (prev_boundary line col) (omega arith))
      | inr over ↦ rw over (ended over)
    ]
  where
    ended :
        (ltb 0 col && not (stop (byte_at line (prev_boundary line col)))) ≡ false
        → (col ≡ 0) ⊎ (stop (byte_at line (prev_boundary line col)) ≡ true)
    ended over = elim (Bool-cases (stop (byte_at line (prev_boundary line col)))) [
      | inl s ↦ inr s
      | inr s ↦ inl (ground arith)
    ]

-- A round back: a character is passed, and those before it.
Passed-prev :
    (stop : ℕ → Bool) (line : List ℕ) (c col : ℕ)
    → 0 < col
    → stop (byte_at line (prev_boundary line col)) ≡ false
    → Passed stop line c (prev_boundary line col)
    → Boundary line c
    → Passed stop line c col
Passed-prev stop line c col h free rest b i p q r =
    let prev = prev_boundary line col in
    let (down, _, inside) = prev_boundary_lem line col h in
    let at : Boundary line i = elim r [ inl e ↦ rw e b | inr b' ↦ b' ] in
    elim (lt_or_le i prev) [
      | inl t ↦ rest i p t r
      | inr t ↦ elim (lt_or_le prev i) [
        | inl u ↦ absurd (not-Inside line prev col i inside at u q)
        | inr u ↦ let e : i ≡ prev = omega arith in rw e free
      ]
    ]

back_rounds-Boundary :
    (k : ℕ) (stop : ℕ → Bool) (line : List ℕ) (col : ℕ)
    → Boundary line col
    → Boundary line (back_rounds k stop line col)
unfolding back_rounds
back_rounds-Boundary zero stop line col b = b
back_rounds-Boundary (suc k) stop line col b =
    elim (Bool-cases (ltb 0 col && not (stop (byte_at line (prev_boundary line col))))) [
      | inl go ↦
          let start = (prev_boundary_lem line col (ground arith)).1 in
          rw go (back_rounds-Boundary k stop line (prev_boundary line col) start)
      | inr over ↦ rw over b
    ]

back_rounds-Passed :
    (k : ℕ) (stop : ℕ → Bool) (line : List ℕ) (col : ℕ)
    → Passed stop line (back_rounds k stop line col) col
unfolding back_rounds
back_rounds-Passed zero stop line col = λ i p q r. absurd (omega arith)
back_rounds-Passed (suc k) stop line col =
    let prev = prev_boundary line col in
    elim (Bool-cases (ltb 0 col && not (stop (byte_at line prev)))) [
      | inl go ↦
          let start = (prev_boundary_lem line col (ground arith)).1 in
          rw go (
            Passed-prev stop line (back_rounds k stop line prev) col (ground arith) (ground arith)
              (back_rounds-Passed k stop line prev) (back_rounds-Boundary k stop line prev start))
      | inr over ↦ rw over (λ i p q r. absurd (omega arith))
    ]

-- From a boundary, a backward scan goes back to behind the last character before it that stops it,
-- or to the start of the line.
pub scan_back_lem :
    (stop : ℕ → Bool) (line : List ℕ) (col : ℕ)
    → Boundary line col
    → let c = scan_back stop line col in
      (c ≤ col)
      × Boundary line c
      × Passed stop line c col
      × ((c ≡ 0) ⊎ (stop (byte_at line (prev_boundary line c)) ≡ true))
scan_back_lem stop line col b = (
  scan_back-le stop line col,
  unfold scan_back in back_rounds-Boundary col stop line col b,
  unfold scan_back in back_rounds-Passed col stop line col,
  unfold scan_back in back_rounds-end col stop line col (omega arith),
)
