-- ===== src/Region/Words.antt =====
-- The words that `editor_kill_word_forward` and `editor_kill_word_backward` of src/input.c go over.
use ved.Common.{ℕ, ◌≤◌, ◌<◌, ◌≡◌, ◌⊎◌, inl, inr, true, false, List, length, arith}
use ved.Text.{isspace}
use ved.Utf8.{byte_at, prev_boundary}
use ved.Utf8.Boundary.{Boundary}
use ved.Scan.{is_word_char, not_word, not_space, scan_forward, scan_back}
use ved.Scan.Bounds.{Reached, scan_forward_lem}
use ved.Scan.Back.{scan_back_lem}
use ved.Region.{kill_word_end, kill_word_start}

-- A blank of ASCII.
unfoldable pub IsBlank : ℕ → Type 0
IsBlank c = (c ≡ 32) ⊎ ((9 ≤ c) × (c ≤ 13))

-- A letter, a digit, `_`, or a byte of a character outside of ASCII.
unfoldable pub IsLetter : ℕ → Type 0
IsLetter c =
    (128 ≤ c)
    ⊎ ((b'a' ≤ c) × (c ≤ b'z'))
    ⊎ ((b'A' ≤ c) × (c ≤ b'Z'))
    ⊎ ((b'0' ≤ c) × (c ≤ b'9'))
    ⊎ (c ≡ b'_')

passed-IsBlank : (c : ℕ) → not_space c ≡ false → IsBlank c
unfolding not_space isspace IsBlank
passed-IsBlank c e = ground arith

stopped-IsBlank : (c : ℕ) → not_space c ≡ true → ¬ IsBlank c
unfolding not_space isspace IsBlank
stopped-IsBlank c e = ground arith

passed-IsLetter : (c : ℕ) → not_word c ≡ false → IsLetter c
unfolding not_word is_word_char IsLetter
passed-IsLetter c e = ground arith

stopped-IsLetter : (c : ℕ) → not_word c ≡ true → ¬ IsLetter c
unfolding not_word is_word_char IsLetter
stopped-IsLetter c e = ground arith

-- Every character that starts from one column on and before another one is of a class.
abbrev pub Chars : (ℕ → Type 0) → List ℕ → ℕ → ℕ → Type 0
Chars Class line from to =
    (i : ℕ) → from ≤ i → i < to → Reached line from i → Class (byte_at line i)

-- The blanks behind a column end at the second one, and the word behind them at the third one.
pub record IsWordEnd (line : List ℕ) (col word end : ℕ) : Type 0 where
  pub col_le : col ≤ word
  pub word_le : word ≤ end
  pub end_in : end ≤ length line
  pub word_at : Reached line col word
  pub end_at : Reached line word end
  pub blanks : Chars IsBlank line col word
  pub no_blank : (word ≡ length line) ⊎ (¬ IsBlank (byte_at line word))
  pub letters : Chars IsLetter line word end
  pub no_letter : (end ≡ length line) ⊎ (¬ IsLetter (byte_at line end))

-- The word before the blanks before a column starts at the first one, and the blanks at the second.
pub record IsWordStart (line : List ℕ) (start word col : ℕ) : Type 0 where
  pub start_le : start ≤ word
  pub word_le : word ≤ col
  pub start_at : Boundary line start
  pub word_at : Boundary line word
  pub blanks : Chars IsBlank line word col
  pub no_blank : (word ≡ 0) ⊎ (¬ IsBlank (byte_at line (prev_boundary line word)))
  pub letters : Chars IsLetter line start word
  pub no_letter : (start ≡ 0) ⊎ (¬ IsLetter (byte_at line (prev_boundary line start)))

pub kill_word_end-IsWordEnd :
    (line : List ℕ) (col : ℕ)
    → col ≤ length line
    → IsWordEnd line col
        (scan_forward not_space line (length line) col)
        (kill_word_end line (length line) col)
unfolding kill_word_end
kill_word_end-IsWordEnd line col h =
    let word = scan_forward not_space line (length line) col in
    let (up, fits, at, passed, stop) = scan_forward_lem not_space line col h in
    let (up', fits', at', passed', stop') = scan_forward_lem not_word line word fits in
    record {
      col_le = up;
      word_le = up';
      end_in = fits';
      word_at = at;
      end_at = at';
      blanks = λ i p q r. passed-IsBlank (byte_at line i) (passed i p q r);
      no_blank = elim stop [ inl e ↦ inl e | inr e ↦ inr (stopped-IsBlank _ e) ];
      letters = λ i p q r. passed-IsLetter (byte_at line i) (passed' i p q r);
      no_letter = elim stop' [ inl e ↦ inl e | inr e ↦ inr (stopped-IsLetter _ e) ];
    }

pub kill_word_start-IsWordStart :
    (line : List ℕ) (col : ℕ)
    → Boundary line col
    → IsWordStart line (kill_word_start line col) (scan_back not_space line col) col
unfolding kill_word_start
kill_word_start-IsWordStart line col b =
    let word = scan_back not_space line col in
    let (down, at, passed, stop) = scan_back_lem not_space line col b in
    let (down', at', passed', stop') = scan_back_lem not_word line word at in
    record {
      start_le = down';
      word_le = down;
      start_at = at';
      word_at = at;
      blanks = λ i p q r. passed-IsBlank (byte_at line i) (passed i p q r);
      no_blank = elim stop [ inl e ↦ inl e | inr e ↦ inr (stopped-IsBlank _ e) ];
      letters = λ i p q r. passed-IsLetter (byte_at line i) (passed' i p q r);
      no_letter = elim stop' [ inl e ↦ inl e | inr e ↦ inr (stopped-IsLetter _ e) ];
    }
