-- ===== src/Loop.antt =====
-- The loop of src/core.c: it reads keys, handles them, and draws the screen.
pub mod Shown
use ved.Common.{ℕ, List, [], ◌∷◌, if◌then◌else◌}
use ved.Os.{Os}
use ved.Editor.{Editor}
use ved.Input.{process_keys}
use ved.Render.{editor_refresh_screen}

-- What one `read` gives, at most 256 bytes and at least one, and the window's size after it.
pub record Input : Type 0 where
  pub keys : List ℕ
  pub rows : ℕ
  pub cols : ℕ

-- `get_window_size`
unfoldable pub get_window_size : Editor → ℕ → ℕ → Editor
get_window_size ed rows cols = record ed { screen_rows = rows; screen_cols = cols }

-- `editor_loop` over what is read: the editor at the end, and the screens that it writes. The loop
-- returns when `should_exit` is set; what would be read after that stays unread.
unfoldable pub editor_loop : Os → Editor → List Input → Editor × List (List ℕ)
unfolding get_window_size
editor_loop os ed [] = (ed, [])
editor_loop os ed (input ∷ inputs) =
    let after = process_keys os ed input.keys in
    let (shown, screen) = editor_refresh_screen os (get_window_size after input.rows input.cols) in
    let (last, screens) = editor_loop os shown inputs in
    if after.should_exit then (after, []) else (last, screen ∷ screens)

-- `editor_run`
unfoldable pub editor_run : Os → Editor → List Input → Editor × List (List ℕ)
unfolding editor_loop
editor_run os ed inputs =
    let (shown, screen) = editor_refresh_screen os ed in
    let (last, screens) = editor_loop os shown inputs in (last, screen ∷ screens)
