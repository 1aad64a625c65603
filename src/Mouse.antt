-- ===== src/Mouse.antt =====
-- `handle_mouse_event` of src/input.c: the numbers of an SGR mouse report, and what it does.
pub mod Cases
use ved.Common.{
  ℕ, zero, suc, ◌+◌, ◌-◌, ◌*◌, Bool, true, false, ◌&&◌, ◌||◌, not, List, [], ◌∷◌, ltb, leb, ◌==◌,
  if◌then◌else◌,
}
use ved.Common.Int.{ℤ, pos, negsuc, is_pos}
use ved.Text.{isspace}
use ved.Buffer.{line_count}
use ved.Frame.{Frame, clamp_frame}
use ved.Editor.{Editor}

abbrev pub is_digit : ℕ → Bool
is_digit c = leb b'0' c && leb c b'9'

-- The digits of `strtol`: the value, saturated at LONG_MAX, and what stands behind them.
unfoldable pub digits_from : ℕ → List ℕ → ℕ × List ℕ
digits_from acc [] = (acc, [])
digits_from acc (c ∷ rest) =
    let more = digits_from (acc * 10 + (c - b'0')) rest in
    if is_digit c then more else (acc, c ∷ rest)

abbrev long_max : ℕ
long_max = 0x7fffffffffffffff

-- The value of a negative number, down to LONG_MIN.
unfoldable pub negated : ℕ → ℤ
negated zero = pos zero
negated (suc n) = if ltb long_max n then negsuc long_max else negsuc n

unfoldable pub skip_spaces : List ℕ → List ℕ
skip_spaces [] = []
skip_spaces (c ∷ rest) = if isspace c then skip_spaces rest else c ∷ rest

-- `strtol` behind the spaces: a sign, and digits; with no digit, 0 and nothing is read.
unfoldable pub signed_from : List ℕ → List ℕ → ℤ × List ℕ
unfolding digits_from negated
signed_from whole [] = (pos 0, whole)
signed_from whole (c ∷ rest) =
    let (n, end) = digits_from 0 rest in
    let (m, stop) = digits_from 0 (c ∷ rest) in
    let starts_number : Bool = elim rest [ [] ↦ false | d ∷ more ↦ is_digit d ] in
    if c == b'-' || c == b'+'
    then (if starts_number
        then ((if c == b'-' then negated n else pos (if ltb long_max n then long_max else n)), end)
        else (pos 0, whole))
    else (if is_digit c
        then (pos (if ltb long_max m then long_max else m), stop)
        else (pos 0, whole))

-- `strtol(nptr, &end, 10)`: the value, and the bytes from `end` on.
unfoldable pub strtol : List ℕ → ℤ × List ℕ
unfolding signed_from skip_spaces
strtol nptr = signed_from nptr (skip_spaces nptr)

-- The position in the text of a point (x, y) of the screen, counted from 1.
unfoldable pub mouse_row : Editor → ℕ → ℕ
mouse_row ed y =
    let row = ed.row_offset + (y - 1) in
    if leb (line_count ed.buffer) row then line_count ed.buffer - 1 else row

unfoldable pub mouse_frame : Editor → ℕ → ℕ → Frame
unfolding mouse_row
mouse_frame ed x y = record { row = mouse_row ed y; col = ed.col_offset + (x - 1) }

-- The cursor goes to a position, with its column clamped to the line.
abbrev point_to : Editor → Frame → Editor
point_to ed at = record ed { frame = clamp_frame ed.buffer at }

unfoldable pub wheel_up : Editor → Editor
wheel_up ed =
    if ltb 0 ed.row_offset
    then record ed {
      row_offset = ed.row_offset - 1;
      frame = record ed.frame { row = ed.frame.row - 1 };
    }
    else ed

unfoldable pub wheel_down : Editor → Editor
wheel_down ed =
    if ltb (suc ed.row_offset) (line_count ed.buffer)
    then record ed {
      row_offset = suc ed.row_offset;
      frame = record ed.frame {
        row =
            if ltb (suc ed.frame.row) (line_count ed.buffer)
            then suc ed.frame.row
            else ed.frame.row;
      };
    }
    else ed

unfoldable pub button_press : Editor → Frame → Editor
button_press ed at = point_to (record ed { mark_active = true; mark = at }) at

unfoldable pub button_release : Editor → Frame → Editor
button_release ed at =
    let same = ed.mark.row == at.row && ed.mark.col == at.col in
    point_to (record ed { mark_active = if same then false else ed.mark_active }) at

unfoldable pub drag : Editor → Frame → Editor
drag ed at =
    point_to (record ed { mark_active = true; mark = if ed.mark_active then ed.mark else ed.frame })
      at

-- The event of button `b` at a point inside the text's rows.
unfoldable pub mouse_button : Editor → ℤ → ℕ → ℕ → Bool → Editor
unfolding mouse_frame wheel_up wheel_down button_press button_release drag
mouse_button ed b x y pressed =
    if is_pos b 64
    then wheel_up ed
    else if is_pos b 65
    then wheel_down ed
    else if is_pos b 0
    then (if pressed
        then button_press ed (mouse_frame ed x y)
        else button_release ed (mouse_frame ed x y))
    else if is_pos b 32
    then drag ed (mouse_frame ed x y)
    else ed

-- The rows of the screen above the status line.
abbrev pub text_rows : Editor → ℕ
text_rows ed = if ltb 1 ed.screen_rows then ed.screen_rows - 1 else 0

unfoldable pub mouse_at : Editor → ℤ → ℤ → ℤ → Bool → Editor
unfolding mouse_button
mouse_at ed b (pos (suc x)) (pos (suc y)) pressed =
    if ltb (text_rows ed) (suc y) then ed else mouse_button ed b (suc x) (suc y) pressed
mouse_at ed b _ _ pressed = ed

-- The rest of a report behind its second number, and behind its first one.
unfoldable pub mouse_from_y : Editor → ℤ → ℤ → List ℕ → ℕ → Bool × Editor
unfolding strtol mouse_at
mouse_from_y ed b x [] type = (false, ed)
mouse_from_y ed b x (c ∷ bytes) type =
    let y = (strtol bytes).0 in
    if c == b';' then (true, mouse_at ed b x y (type == b'M')) else (false, ed)

unfoldable pub mouse_from_x : Editor → ℤ → List ℕ → ℕ → Bool × Editor
unfolding strtol mouse_from_y
mouse_from_x ed b [] type = (false, ed)
mouse_from_x ed b (c ∷ bytes) type =
    let (x, end) = strtol bytes in if c == b';' then mouse_from_y ed b x end type else (false, ed)

-- Whether the report was read, and the editor after. The report ends by `M` for a press.
unfoldable pub handle_mouse_event : Editor → List ℕ → ℕ → Bool × Editor
unfolding mouse_from_x
handle_mouse_event ed seq type = let (b, end) = strtol seq in mouse_from_x ed b end type
