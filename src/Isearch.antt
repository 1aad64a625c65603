-- ===== src/Isearch.antt =====
-- The state of the incremental search of src/input.c.
use ved.Common.{
  ℕ, ◌+◌, Bool, true, false, ◌&&◌, ◌||◌, not, Option, none, some, List, [], ◌∷◌, ◌++◌, ltb, leb,
  ◌==◌, if◌then◌else◌, length, take,
}
use ved.Text.{codes}
use ved.Utf8.{next_boundary, prev_boundary}
use ved.Buffer.{line_at, line_length}
use ved.Frame.{Frame}
use ved.Search.{search_forward_from, search_backward_from}
use ved.Editor.{Editor, set_status}
use ved.Finder.{ctrl, key_backspace}

-- The prefix that `isearch_set_status` chooses.
unfoldable pub isearch_prefix : Bool → Bool → List ℕ
isearch_prefix true true = codes "Failing I-search forward: "
isearch_prefix true false = codes "Failing I-search backward: "
isearch_prefix false true = codes "I-search forward: "
isearch_prefix false false = codes "I-search backward: "

unfoldable pub isearch_set_status : Editor → Bool → Editor
isearch_set_status ed failed =
    set_status ed (isearch_prefix failed ed.isearch_forward) ed.isearch_query

unfoldable pub isearch_begin : Editor → Bool → Editor
unfolding isearch_set_status
isearch_begin ed forward =
    let begun = record ed {
      isearch_active = true;
      isearch_query = [];
      isearch_origin = ed.frame;
      isearch_has_match = false;
    } in
    let ready = if ed.isearch_active then ed else begun in
    isearch_set_status (record ready { isearch_forward = forward }) false

unfoldable pub isearch_finish : Editor → Bool → Editor
isearch_finish ed restore_origin = if not ed.isearch_active then ed else record ed {
  frame = if restore_origin then ed.isearch_origin else ed.frame;
  isearch_active = false;
  isearch_has_match = false;
  isearch_query = [];
  status_msg = [];
}

-- The position from which `isearch_find` searches.
unfoldable pub search_start : Editor → Bool → Frame
search_start ed repeat =
    let line = line_at ed.buffer ed.frame.row in
    if repeat && ed.isearch_has_match
    then (if ed.isearch_forward
        then record ed.frame {
          col = next_boundary line (line_length ed.buffer ed.frame.row) ed.frame.col;
        }
        else record ed.frame { col = prev_boundary line ed.frame.col })
    else ed.isearch_origin

unfoldable pub isearch_target : Editor → Bool → Option Frame
unfolding search_start
isearch_target ed repeat =
    let start = search_start ed repeat in
    if ed.isearch_forward
    then search_forward_from ed.buffer ed.isearch_query start.row start.col
    else search_backward_from ed.buffer ed.isearch_query start.row start.col

unfoldable pub isearch_find : Editor → Bool → Editor
unfolding isearch_set_status
isearch_find ed repeat =
    if length ed.isearch_query == 0
    then isearch_set_status (record ed { frame = ed.isearch_origin; isearch_has_match = false })
        false
    else elim (isearch_target ed repeat) [
      | some found ↦
          isearch_set_status (record ed { frame = found; isearch_has_match = true }) false
      | none ↦ isearch_set_status (record ed { isearch_has_match = false }) true
    ]

unfoldable pub isearch_backspace : Editor → Editor
isearch_backspace ed =
    if length ed.isearch_query == 0
    then ed
    else isearch_find
        (record ed {
          isearch_query =
              take (prev_boundary ed.isearch_query (length ed.isearch_query)) ed.isearch_query;
        })
        false

-- A byte is added to the query while the array of 256 bytes has room.
unfoldable pub isearch_type : Editor → ℕ → Editor
isearch_type ed key =
    if ltb (length ed.isearch_query + 1) 256
    then isearch_find (record ed { isearch_query = ed.isearch_query ++ key ∷ [] }) false
    else ed

-- Whether the key was handled, and the editor after.
unfoldable pub isearch_handle_key : Editor → ℕ → Bool × Editor
isearch_handle_key ed key =
    if not ed.isearch_active
    then (false, ed)
    else if key == ctrl b'g'
    then (true, isearch_finish ed true)
    else if key == 13
    then (true, isearch_finish ed false)
    else if key == 27
    then (false, isearch_finish ed false)
    else if key == ctrl b's'
    then (true, isearch_find (record ed { isearch_forward = true }) true)
    else if key == ctrl b'r'
    then (true, isearch_find (record ed { isearch_forward = false }) true)
    else if key == key_backspace || key == ctrl b'h'
    then (true, isearch_backspace ed)
    else if leb 32 key
    then (true, isearch_type ed key)
    else (false, isearch_finish ed false)
