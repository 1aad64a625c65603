-- ===== src/Input/Escape.antt =====
-- `handle_escape` of src/input.c: the state machine of the escape sequences.
use ved.Common.{ℕ, ◌+◌, Bool, ◌||◌, [], ◌∷◌, ◌++◌, ltb, ◌==◌, if◌then◌else◌, length}
use ved.Common.Int.{pos, negsuc}
use ved.Os.{Os}
use ved.Frame.{move_prev_line, move_next_line, move_prev_char, move_next_char}
use ved.Mouse.{is_digit, handle_mouse_event}
use ved.Editor.{Editor, EscState, esc_none, esc_seen, esc_csi, esc_mouse}
use ved.Finder.{move_selection, list_rows, open_finder}
use ved.Input.Flags.{Outcome, done, passed}
use ved.Input.Meta.{handle_meta_key}

-- `sizeof(ed->esc_buf)`
abbrev pub esc_size : ℕ
esc_size = 32

abbrev pub leave_escape : Editor → Editor
leave_escape ed = record ed { esc_state = esc_none }

-- A byte of a sequence is kept while there is room; else the sequence is given up.
unfoldable pub keep_byte : Editor → ℕ → Editor
keep_byte ed key =
    if ltb (length ed.esc_buf + 1) esc_size
    then record ed { esc_buf = ed.esc_buf ++ key ∷ [] }
    else leave_escape ed

-- An arrow key, in the list of the finder or in the text.
unfoldable pub arrow_key : Editor → ℕ → Editor
arrow_key ed key =
    if ed.finder.active
    then (if key == b'A'
        then record ed { finder = move_selection (list_rows ed) (negsuc 0) ed.finder }
        else (if key == b'B'
            then record ed { finder = move_selection (list_rows ed) (pos 1) ed.finder }
            else ed))
    else if key == b'A'
    then record ed { frame = move_prev_line ed.buffer ed.frame }
    else if key == b'B'
    then record ed { frame = move_next_line ed.buffer ed.frame }
    else if key == b'C'
    then record ed { frame = move_next_char ed.buffer ed.frame }
    else record ed { frame = move_prev_char ed.buffer ed.frame }

abbrev pub is_arrow : ℕ → Bool
is_arrow key = key == b'A' || key == b'B' || key == b'C' || key == b'D'

unfoldable pub csi_key : Os → Editor → ℕ → Outcome
unfolding keep_byte
csi_key os ed key =
    if is_arrow key
    then done (arrow_key (leave_escape ed) key)
    else if key == b'<'
    then done (record ed { esc_state = esc_mouse; esc_buf = [] })
    else if is_digit key || key == b';'
    then done (keep_byte ed key)
    else if key == b'p' || key == b'P'
    then done (open_finder os (leave_escape ed))
    else passed (leave_escape ed)

unfoldable pub mouse_key : Editor → ℕ → Outcome
unfolding keep_byte
mouse_key ed key =
    let (read, after) = handle_mouse_event (leave_escape ed) ed.esc_buf key in
    if key == b'm' || key == b'M'
    then (if read then done after else passed after)
    else done (keep_byte ed key)

unfoldable pub seen_key : Os → Editor → ℕ → Outcome
seen_key os ed key =
    if key == b'['
    then done (record ed { esc_state = esc_csi })
    else handle_meta_key os (leave_escape ed) key

-- The dispatch on the state.
unfoldable pub escape_in : EscState → Os → Editor → ℕ → Outcome
escape_in esc_none os ed key = passed ed
escape_in esc_seen os ed key = seen_key os ed key
escape_in esc_csi os ed key = csi_key os ed key
escape_in esc_mouse os ed key = mouse_key ed key

unfoldable pub handle_escape : Os → Editor → ℕ → Outcome
unfolding escape_in
handle_escape os ed key = escape_in ed.esc_state os ed key
