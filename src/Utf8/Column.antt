-- ===== src/Utf8/Column.antt =====
-- The visual columns of src/utf8.c: a byte column and back.
use ved.Common.{
  ℕ, zero, suc, ◌+◌, ◌≤◌, ◌<◌, ◌≡◌, refl, ◌∙◌, ◌≢◌, List, [], ◌∷◌, arith, length, drop,
  le→ltb_false, ne→==_false,
}
use ved.Utf8.{byte_at, advance, vis_from, byte_to_vis_col, byte_from, vis_to_byte_col}

-- A C string holds no NUL before its end.
abbrev pub NoNul : List ℕ → Type 0
NoNul line = (i : ℕ) → i < length line → byte_at line i ≢ 0

drop-cons :
    (line : List ℕ) (i : ℕ) → i < length line → drop i line ≡ byte_at line i ∷ drop (suc i) line
drop-cons [] i h = elim h [ ]
drop-cons (b ∷ line) zero h = refl
drop-cons (b ∷ line) (suc i) h = drop-cons line i (omega arith)

advance_grows : (vis b : ℕ) → vis < advance vis b
unfolding advance
advance_grows vis b = ground arith

vis_from-le : (line : List ℕ) (vis n : ℕ) → vis ≤ vis_from vis line n
unfolding vis_from
vis_from-le [] vis zero = omega arith
vis_from-le [] vis (suc n) = omega arith
vis_from-le (b ∷ line) vis zero = omega arith
vis_from-le (b ∷ line) vis (suc n) =
    ground (arith, advance_grows vis b, vis_from-le line (advance vis b) n)

vis_from-cons :
    (line : List ℕ) (vis b n : ℕ)
    → b ≢ 0
    → vis_from vis (b ∷ line) (suc n) ≡ vis_from (advance vis b) line n
unfolding vis_from
vis_from-cons line vis b n h = rw (ne→==_false b 0 h)

-- The walk of `utf8_vis_to_byte_col` makes a round while the target is not reached.
byte_from-step :
    (k vis target col : ℕ) (line : List ℕ)
    → advance vis (byte_at line col) ≤ target
    → byte_from (suc k) line vis target col
      ≡ byte_from k line (advance vis (byte_at line col)) target (suc col)
unfolding byte_from
byte_from-step k vis target col line h = ground (arith, advance_grows vis (byte_at line col))

byte_from-stop : (k vis col : ℕ) (line : List ℕ) → byte_from k line vis vis col ≡ col
unfolding byte_from
byte_from-stop zero vis col line = refl
byte_from-stop (suc k) vis col line = rw (le→ltb_false vis vis (omega arith))

byte_from-vis_from :
    (n k vis col : ℕ) (line : List ℕ)
    → NoNul line
    → col + n ≤ length line
    → n ≤ k
    → byte_from k line vis (vis_from vis (drop col line) n) col ≡ col + n
byte_from-vis_from zero k vis col line z h p =
    rw (vis_from-zero (drop col line)) (byte_from-stop k vis col line ∙ omega arith)
  where
    vis_from-zero : (rest : List ℕ) → vis_from vis rest zero ≡ vis
    vis_from-zero rest = unfold vis_from in refl
byte_from-vis_from (suc n) zero vis col line z h p = elim p [ ]
byte_from-vis_from (suc n) (suc k) vis col line z h p =
    let inside : col < length line = omega arith in
    let b = byte_at line col in
    let next = advance vis b in
    let rest = drop (suc col) line in
    rw (drop-cons line col inside, vis_from-cons rest vis b n (z col inside))
      (byte_from-step k vis (vis_from next rest n) col line (vis_from-le rest next n)
        ∙ byte_from-vis_from n k next (suc col) line z (omega arith) (omega arith)
        ∙ omega arith)

-- In a line without NUL bytes, the visual column of a byte column of the line leads back to that
-- byte column, tabs or not.
pub vis_to_byte_col-byte_to_vis_col :
    (line : List ℕ) (col : ℕ)
    → NoNul line
    → col ≤ length line
    → vis_to_byte_col line (length line) (byte_to_vis_col line col) ≡ col
unfolding vis_to_byte_col byte_to_vis_col
vis_to_byte_col-byte_to_vis_col line col z h =
    byte_from-vis_from col (length line) 0 0 line z (omega arith) h ∙ omega arith
