-- ===== src/Scan.antt =====
-- The character classes of src/input.c and src/finder.c, and the two loops over characters that
-- the word commands of both repeat.
pub mod Bounds
pub mod Back
use ved.Common.{ℕ, zero, suc, ◌<◌, Bool, ◌&&◌, ◌||◌, not, List, ltb, leb, ◌==◌, if◌then◌else◌}
use ved.Text.{isspace}
use ved.Utf8.{byte_at, next_boundary, prev_boundary}

unfoldable pub is_word_char : ℕ → Bool
is_word_char ch =
    leb 128 ch
    || ((leb b'a' ch && leb ch b'z')
        || (leb b'A' ch && leb ch b'Z')
        || (leb b'0' ch && leb ch b'9')
        || ch == b'_')

-- The tests at which the loops break.
unfoldable pub not_word : ℕ → Bool
not_word ch = not (is_word_char ch)

unfoldable pub not_space : ℕ → Bool
not_space ch = leb 128 ch || not (isspace ch)

-- `while (col < len) { if (stop(line[col])) break; col = utf8_next_boundary(line, len, col); }`,
-- with at most this many rounds.
unfoldable pub forward_rounds : ℕ → (ℕ → Bool) → List ℕ → ℕ → ℕ → ℕ
forward_rounds zero stop line len col = col
forward_rounds (suc k) stop line len col =
    let rest = forward_rounds k stop line len (next_boundary line len col) in
    if ltb col len && not (stop (byte_at line col)) then rest else col

unfoldable pub scan_forward : (ℕ → Bool) → List ℕ → ℕ → ℕ → ℕ
unfolding forward_rounds
scan_forward stop line len col = forward_rounds len stop line len col

-- `while (col > 0) { prev = utf8_prev_boundary(line, col); if (stop(line[prev])) break; col = prev; }`
unfoldable pub back_rounds : ℕ → (ℕ → Bool) → List ℕ → ℕ → ℕ
back_rounds zero stop line col = col
back_rounds (suc k) stop line col =
    let prev = prev_boundary line col in
    let rest = back_rounds k stop line prev in
    if ltb 0 col && not (stop (byte_at line prev)) then rest else col

unfoldable pub scan_back : (ℕ → Bool) → List ℕ → ℕ → ℕ
unfolding back_rounds
scan_back stop line col = back_rounds col stop line col
