-- ===== src/Utf8/Boundary.antt =====
-- The character boundaries that src/utf8.c finds.
use ved.Common.{
  ℕ, zero, suc, ◌+◌, ◌-◌, ◌≤◌, ◌<◌, ◌≡◌, refl, ◌⊎◌, inl, inr, Bool, true, false, ◌&&◌, List, arith,
  length, get_or_past, Bool-cases, lt→leb_false, lt_or_le, ltb,
}
use ved.Utf8.{
  byte_at, is_continuation, skip_continuations, next_boundary, back_continuations, prev_boundary,
  clamp_inside, clamp_col,
}

-- A column at which a character starts, or the start of the line.
abbrev pub Boundary : List ℕ → ℕ → Type 0
Boundary line col = (col ≡ 0) ⊎ (is_continuation (byte_at line col) ≡ false)

-- Only continuation bytes stand strictly between two columns.
abbrev pub Inside : List ℕ → ℕ → ℕ → Type 0
Inside line from to = (i : ℕ) → from < i → i < to → is_continuation (byte_at line i) ≡ true

is_continuation-zero : is_continuation 0 ≡ false
unfolding is_continuation
is_continuation-zero = refl

pub skip_continuations_bounds :
    (k : ℕ) (line : List ℕ) (col : ℕ)
    → (col ≤ skip_continuations k line col) × (skip_continuations k line col ≤ col + k)
unfolding skip_continuations
skip_continuations_bounds zero line col = omega arith
skip_continuations_bounds (suc k) line col =
    ground (arith, skip_continuations_bounds k line (suc col))

skip_continuations-Inside :
    (k : ℕ) (line : List ℕ) (col i : ℕ)
    → col ≤ i
    → i < skip_continuations k line col
    → is_continuation (byte_at line i) ≡ true
unfolding skip_continuations
skip_continuations-Inside zero line col i h p = absurd (omega arith)
skip_continuations-Inside (suc k) line col i h p =
    elim (Bool-cases (is_continuation (byte_at line col))) [
      | inl c ↦ elim (lt_or_le col i) [
        | inl q ↦ skip_continuations-Inside k line (suc col) i q (ground arith)
        | inr q ↦ let e : i ≡ col = omega arith in rw e c
      ]
      | inr c ↦ absurd (ground arith)
    ]

-- The loop ends because its rounds are used up or because it meets a boundary.
skip_continuations-end :
    (k : ℕ) (line : List ℕ) (col : ℕ)
    → (skip_continuations k line col ≡ col + k)
      ⊎ (is_continuation (byte_at line (skip_continuations k line col)) ≡ false)
unfolding skip_continuations
skip_continuations-end zero line col = inl (omega arith)
skip_continuations-end (suc k) line col = elim (Bool-cases (is_continuation (byte_at line col))) [
  | inl c ↦
      rw c (elim (skip_continuations-end k line (suc col)) [
        | inl e ↦ inl (omega arith)
        | inr e ↦ inr e
      ])
  | inr c ↦ rw c (inr c)
]

pub next_boundary_bounds :
    (line : List ℕ) (len col : ℕ)
    → col < len
    → (col < next_boundary line len col) × (next_boundary line len col ≤ len)
unfolding next_boundary
next_boundary_bounds line len col h =
    ground (arith, skip_continuations_bounds (len - suc col) line (suc col))

pub next_boundary-le : (line : List ℕ) (len col : ℕ) → next_boundary line len col ≤ len
unfolding next_boundary
next_boundary-le line len col =
    ground (arith, skip_continuations_bounds (len - suc col) line (suc col))

-- From a column before the end of the line, `utf8_next_boundary` goes to the first boundary behind
-- it: it moves forward, stays in the line, ends at a boundary and passes none.
pub next_boundary_lem :
    (line : List ℕ) (col : ℕ)
    → col < length line
    → let n = next_boundary line (length line) col in
      (col < n) × (n ≤ length line) × Boundary line n × Inside line col n
next_boundary_lem line col h = (
  (next_boundary_bounds line (length line) col h).0,
  (next_boundary_bounds line (length line) col h).1,
  stop,
  inside,
)
  where
    rounds : ℕ
    rounds = length line - suc col

    step : next_boundary line (length line) col ≡ skip_continuations rounds line (suc col)
    step = unfold next_boundary in rw (lt→leb_false (length line) col h)

    at_end :
        skip_continuations rounds line (suc col) ≡ suc col + rounds
        → is_continuation (byte_at line (skip_continuations rounds line (suc col))) ≡ false
    at_end e =
        let past : length line ≤ skip_continuations rounds line (suc col) = omega arith in
        rw (get_or_past line _ 0 past) is_continuation-zero

    stop : Boundary line (next_boundary line (length line) col)
    stop = rw step (elim (skip_continuations-end rounds line (suc col)) [
      | inl e ↦ inr (at_end e)
      | inr e ↦ inr e
    ])

    inside : Inside line col (next_boundary line (length line) col)
    inside i p q = skip_continuations-Inside rounds line (suc col) i p (rw step at q)

back_continuations-le : (line : List ℕ) (c : ℕ) → back_continuations line c ≤ c
unfolding back_continuations
back_continuations-le line zero = omega arith
back_continuations-le line (suc c) = ground (arith, back_continuations-le line c)

back_continuations-Boundary : (line : List ℕ) (c : ℕ) → Boundary line (back_continuations line c)
unfolding back_continuations
back_continuations-Boundary line zero = inl refl
back_continuations-Boundary line (suc c) =
    elim (Bool-cases (is_continuation (byte_at line (suc c)))) [
      | inl e ↦ rw e (back_continuations-Boundary line c)
      | inr e ↦ rw e (inr e)
    ]

back_continuations-Inside :
    (line : List ℕ) (c i : ℕ)
    → back_continuations line c < i
    → i ≤ c
    → is_continuation (byte_at line i) ≡ true
unfolding back_continuations
back_continuations-Inside line zero i p q = absurd (omega arith)
back_continuations-Inside line (suc c) i p q =
    elim (Bool-cases (is_continuation (byte_at line (suc c)))) [
      | inl e ↦ elim (lt_or_le i (suc c)) [
        | inl r ↦ back_continuations-Inside line c i (ground arith) (omega arith)
        | inr r ↦ let e' : i ≡ suc c = omega arith in rw e' e
      ]
      | inr e ↦ absurd (ground arith)
    ]

pub prev_boundary_bounds : (line : List ℕ) (col : ℕ) → 0 < col → prev_boundary line col < col
unfolding prev_boundary
prev_boundary_bounds line zero h = elim h [ ]
prev_boundary_bounds line (suc c) h = omega (arith, back_continuations-le line c)

pub prev_boundary-le : (line : List ℕ) (col : ℕ) → prev_boundary line col ≤ col
unfolding prev_boundary
prev_boundary-le line zero = omega arith
prev_boundary-le line (suc c) = omega (arith, back_continuations-le line c)

-- From a column that is not 0, `utf8_prev_boundary` goes to the last boundary before it: it moves
-- back, ends at a boundary and passes none.
pub prev_boundary_lem :
    (line : List ℕ) (col : ℕ)
    → 0 < col
    → let p = prev_boundary line col in (p < col) × Boundary line p × Inside line p col
unfolding prev_boundary
prev_boundary_lem line zero h = elim h [ ]
prev_boundary_lem line (suc c) h = (
  prev_boundary_bounds line (suc c) h,
  back_continuations-Boundary line c,
  λ i p q. back_continuations-Inside line c i p (omega arith),
)

-- A boundary is not inside a character.
pub not-Inside :
    (line : List ℕ) (from to col : ℕ)
    → Inside line from to
    → Boundary line col
    → from < col
    → col < to
    → ⊥
not-Inside line from to col inside (inl e) p q = omega arith
not-Inside line from to col inside (inr e) p q = let c = inside col p q in cc

-- From a boundary before the end of the line, moving forward and back again returns to it.
pub prev_boundary-next_boundary :
    (line : List ℕ) (col : ℕ)
    → col < length line
    → Boundary line col
    → prev_boundary line (next_boundary line (length line) col) ≡ col
prev_boundary-next_boundary line col h b =
    let (up, _, _, inside) = next_boundary_lem line col h in
    let n = next_boundary line (length line) col in
    let (down, start, inside') = prev_boundary_lem line n (omega arith) in
    elim (lt_or_le (prev_boundary line n) col) [
      | inl p ↦ absurd (not-Inside line _ n col inside' b p up)
      | inr p ↦ elim (lt_or_le col (prev_boundary line n)) [
        | inl q ↦ absurd (not-Inside line col n _ inside start q down)
        | inr q ↦ omega arith
      ]
    ]

-- From a boundary of the line that is not its start, moving back and forward again returns to it.
pub next_boundary-prev_boundary :
    (line : List ℕ) (col : ℕ)
    → 0 < col
    → col ≤ length line
    → Boundary line col
    → next_boundary line (length line) (prev_boundary line col) ≡ col
next_boundary-prev_boundary line col h k b =
    let (down, start, inside) = prev_boundary_lem line col h in
    let p = prev_boundary line col in
    let (up, _, stop, inside') = next_boundary_lem line p (omega arith) in
    elim (lt_or_le (next_boundary line (length line) p) col) [
      | inl q ↦ absurd (not-Inside line p col _ inside stop up q)
      | inr q ↦ elim (lt_or_le col (next_boundary line (length line) p)) [
        | inl r ↦ absurd (not-Inside line p _ col inside' b down r)
        | inr r ↦ omega arith
      ]
    ]

clamp_inside-le : (line : List ℕ) (len col : ℕ) → clamp_inside line len col ≤ col
unfolding clamp_inside
clamp_inside-le line len col = ground (arith, prev_boundary-le line col)

pub clamp_col-le : (line : List ℕ) (len col : ℕ) → clamp_col line len col ≤ len
unfolding clamp_col
clamp_col-le line len col =
    ground (arith, clamp_inside-le line len len, clamp_inside-le line len col)

clamp_inside-Boundary :
    (line : List ℕ) (col : ℕ)
    → col ≤ length line
    → Boundary line (clamp_inside line (length line) col)
unfolding clamp_inside
clamp_inside-Boundary line col h = elim (Bool-cases test) [
  | inl t ↦ let pos : 0 < col = ground arith in rw t (prev_boundary_lem line col pos).1
  | inr f ↦ rw f (kept f)
]
  where
    test : Bool
    test = ltb 0 col && ltb col (length line) && is_continuation (byte_at line col)

    kept : test ≡ false → Boundary line col
    kept f = elim (lt_or_le 0 col) [
      | inr p ↦ inl (omega arith)
      | inl p ↦ elim (lt_or_le col (length line)) [
        | inr q ↦ inr (rw (get_or_past line col 0 q) is_continuation-zero)
        | inl q ↦ inr (ground arith)
      ]
    ]

-- `utf8_clamp_col` gives a boundary of the line, whatever the column was.
pub clamp_col-Boundary :
    (line : List ℕ) (col : ℕ) → Boundary line (clamp_col line (length line) col)
unfolding clamp_col
clamp_col-Boundary line col = elim (Bool-cases (ltb (length line) col)) [
  | inl t ↦ rw t (clamp_inside-Boundary line (length line) (omega arith))
  | inr f ↦ rw f (clamp_inside-Boundary line col (ground arith))
]
