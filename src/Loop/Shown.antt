-- ===== src/Loop/Shown.antt =====
-- The loop of src/core.c leaves the cursor's row in the window that src/render.c draws.
use ved.Common.{
  ℕ, ◌+◌, ◌≤◌, ◌<◌, ◌≡◌, ◌⊎◌, inl, inr, true, false, Option, none, some, List, [], ◌∷◌, arith,
  if_cases, ◌&&◌, ◌||◌, refl,
}
use ved.Os.{Os}
use ved.Buffer.{Buffer}
use ved.Editor.{Editor, editor_create}
use ved.Frame.Rows.{OnRow}
use ved.Input.{process_keys}
use ved.Input.Quiet.{IsQuiet}
use ved.Input.QuietEscape.{process_keys-IsQuiet, editor_create-IsQuiet}
use ved.Input.PlacedSearch.{IsPlaced}
use ved.Input.PlacedKeys.{process_keys-IsPlaced, editor_create-IsPlaced}
use ved.Render.{refreshed, editor_refresh_screen}
use ved.Render.Highlight.{refresh_tree}
use ved.Render.Scroll.{text_rows, editor_scroll}
use ved.Render.Visible.{editor_scroll-shows}
use ved.Loop.{Input, get_window_size, editor_loop, editor_run}

-- The cursor is on a row of the buffer that the window shows.
pub record IsShown (ed : Editor) : Type 0 where
  pub on_row : OnRow ed.buffer ed.frame
  pub from_top : ed.row_offset ≤ ed.frame.row
  pub above_bar : ed.frame.row < ed.row_offset + text_rows ed

-- What every round of the loop keeps.
record IsRunning (ed : Editor) : Type 0 where
  quiet : IsQuiet ed
  placed : IsPlaced ed

-- Every window that the terminal reports has a row above the status bar.
abbrev pub HaveRows : List Input → Type 0
HaveRows [] = Unit
HaveRows (input ∷ inputs) = (1 < input.rows) × HaveRows inputs

lines-refresh_tree : (os : Os) (b : Buffer) → (refresh_tree os b).lines ≡ b.lines
unfolding refresh_tree
lines-refresh_tree os b =
    if_cases (λ b'. Buffer.lines b' ≡ b.lines)
      (b.syntax_enabled && (b.syntax_dirty || (elim b.tree [ none ↦ true | some _ ↦ false ])))
      (λ _. refl) (λ _. refl)

-- A new size of the window, and drawing the screen, change the window and the parse, not what the
-- invariants speak of.
module _ (os : Os) (ed : Editor) (rows cols : ℕ) where
  drawn : Editor
  drawn = refreshed os (get_window_size ed rows cols)

  drawn-IsQuiet : IsQuiet ed → IsQuiet drawn
  unfolding drawn refreshed editor_scroll get_window_size
  drawn-IsQuiet (inl e) = inl e
  drawn-IsQuiet (inr q) = inr (record {
    no_kill = q.no_kill;
    no_yank = q.no_yank;
    no_finder = q.no_finder;
    no_search = q.no_search;
  })

  drawn-IsPlaced : IsPlaced ed → IsPlaced drawn
  unfolding drawn refreshed editor_scroll get_window_size
  drawn-IsPlaced p = record {
    cursor = rw (lines-refresh_tree os ed.buffer) p.cursor;
    search = rw (lines-refresh_tree os ed.buffer) p.search;
  }

  drawn-IsShown : IsPlaced ed → 1 < rows → IsShown drawn
  unfolding drawn refreshed get_window_size
  drawn-IsShown p h =
      let sized = get_window_size ed rows cols in
      let (top, bar, end) = editor_scroll-shows sized (ground arith) p.cursor in
      record {
        on_row = rw (lines-refresh_tree os ed.buffer) p.cursor;
        from_top = top;
        above_bar = bar;
      }

rows-editor_create :
    (os : Os) (path : Option (List ℕ)) (rows cols : ℕ)
    → (editor_create os path rows cols).screen_rows ≡ rows
unfolding editor_create
rows-editor_create os path rows cols = refl

module _ (os : Os) where
  -- A round that does not exit leaves what the next one starts from.
  editor_loop-IsShown :
      (inputs : List Input) (ed : Editor)
      → HaveRows inputs
      → IsRunning ed
      → IsShown ed
      → let last = (editor_loop os ed inputs).0 in (last.should_exit ≡ true) ⊎ IsShown last
  unfolding editor_loop editor_refresh_screen drawn
  editor_loop-IsShown [] ed h r s = inr s
  editor_loop-IsShown (input ∷ inputs) ed (h, more) r s =
      let after = process_keys os ed input.keys in
      let quiet = process_keys-IsQuiet os input.keys ed r.quiet in
      let placed = process_keys-IsPlaced os input.keys ed r.quiet r.placed in
      if_cases (λ (o : Editor × List (List ℕ)). (o.0.should_exit ≡ true) ⊎ IsShown o.0)
        after.should_exit (λ e. inl e)
        (λ _.
          editor_loop-IsShown inputs (drawn os after input.rows input.cols) more
            (record {
              quiet = drawn-IsQuiet os after input.rows input.cols quiet;
              placed = drawn-IsPlaced os after input.rows input.cols placed;
            })
            (drawn-IsShown os after input.rows input.cols placed h))

  -- Whatever keys are read, in a window that always has a row above the status bar: when the program
  -- waits for more, and has not been told to exit, the cursor is on a row of the buffer, and that row
  -- is one that the screen shows.
  pub editor_run-IsShown :
      (path : Option (List ℕ)) (rows cols : ℕ) (inputs : List Input)
      → 1 < rows
      → HaveRows inputs
      → let last = (editor_run os (editor_create os path rows cols) inputs).0 in
        (last.should_exit ≡ true) ⊎ IsShown last
  unfolding editor_run editor_refresh_screen drawn get_window_size
  editor_run-IsShown path rows cols inputs h more =
      let start = editor_create os path rows cols in
      let quiet = editor_create-IsQuiet os path rows cols in
      let placed = editor_create-IsPlaced os path rows cols in
      editor_loop-IsShown inputs (drawn os start start.screen_rows start.screen_cols) more
        (record {
          quiet = drawn-IsQuiet os start start.screen_rows start.screen_cols quiet;
          placed = drawn-IsPlaced os start start.screen_rows start.screen_cols placed;
        })
        (drawn-IsShown os start start.screen_rows start.screen_cols placed
          (omega (arith, h, rows-editor_create os path rows cols)))
