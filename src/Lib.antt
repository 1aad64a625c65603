-- ===== src/Lib.antt =====
-- Verification of ved, a terminal text editor with Emacs keys: the buffer, the cursor, the kill ring,
-- the search, the prompt, the finder, the keys and the screen, as in src/buffer.c, src/utf8.c,
-- src/input.c, src/finder.c and src/render.c, with the state of src/editor.h, and the process around
-- them in src/core.c, src/main.c and src/util.c.
--
-- The program reads bytes from the terminal (src/core.c) and gives each to `editor_process_key`,
-- which runs it through the escape sequences, the finder, the search, the prompt and the commands.
-- The commands change the buffer, the cursor, the kill ring and the flags of the editor; the finder
-- loads another file into the buffer; the renderer moves the window after the cursor, has the text
-- parsed, and draws the screen.
--
-- Files:
--   Common    shared helpers for numbers, lists and tests; Common/All: a predicate on a list
--   Os        the system calls and libraries, parameters of the definitions that call them
--   Text      strings and the functions of the C library on bytes, by their documented behaviour
--   Utf8      src/utf8.c; Utf8/Boundary, Utf8/Column: its laws
--   Buffer    src/buffer.c; Buffer/Rows: the moves of the array of lines; Buffer/Refine and
--             Buffer/Delete: the edits against the text of Contents; Buffer/Counts: the number of
--             lines; Buffer/Saved, Buffer/Reload: the file; Buffer/Clean, Buffer/CleanFile: the
--             bytes of the lines
--   Contents  the abstract text, cut in two at a position; Contents/Cursor: a byte goes in
--   Scan      the loops over words and blanks that src/input.c and src/finder.c repeat; Scan/Bounds,
--             Scan/Back: where they end
--   Frame     `frame_*` of src/input.c; Frame/Bounds, Frame/Chars, Frame/Rows: its laws
--   KillRing  the ring of src/editor.h and `editor_kill_set`; KillRing/Laws, KillRing/Clean: its laws
--   Field     `prompt_*` of src/input.c and the query of src/finder.c; Field/Bounds
--   Search    `line_search_*` and `search_*_from` of src/input.c; Search/Line, Search/Rows,
--             Search/First, Search/Last: what they find
--   Isearch   `isearch_*` of src/input.c
--   Region    the region, the kills and the yank of src/input.c; Region/Copy, Region/Yank,
--             Region/Restore, Region/Clean: their laws; Region/Words, Region/Killed: words and what
--             is killed of a line
--   Mouse     `handle_mouse_event` of src/input.c; Mouse/Cases
--   Input     `editor_process_key`; Input/Flags: its label `done`; Input/Meta, Input/Escape,
--             Input/Prompt, Input/Command: the handlers; Input/Quiet, Input/QuietEscape,
--             Input/YankPop, Input/Backspace: laws of all keys; Input/Placed,
--             Input/PlacedEscape, Input/PlacedSearch, Input/PlacedKeys: the cursor's row;
--             Input/Saving: the saves; Input/SearchCancel: a cancelled search; Input/KillNewline,
--             Input/KillWord: the kills; Input/Bounded, Input/BoundedEscape, Input/BoundedSearch,
--             Input/BoundedKeys: the arrays of `Editor`; Input/Clean, Input/CleanEscape,
--             Input/CleanKeys: the bytes of the text
--   Paths, Ignore, Fuzzy, Finder   src/finder.c, each with its laws
--   Editor    the state of src/editor.h and `editor_create` of src/core.c
--   Base64    `base64_encode` of src/util.c and the message to the clipboard of src/input.c;
--             Base64/RoundTrip: its decoder
--   Terminal  `write_all` of src/render.c and src/input.c; Terminal/Progress
--   Output    the `ab_*` functions of src/render.c; Output/Growth
--   Render    `editor_refresh_screen` of src/render.c; Render/Scroll: the window; Render/Highlight:
--             the parse and the coloured spans; Render/Line: a row; Render/Modal: the boxes;
--             Render/Visible, Render/Selection, Render/Buffered, Render/Offsets, Render/Bar,
--             Render/Paint, Render/Runs, Render/Boxes, Render/Cursor: laws
--   Loop      `editor_loop` and `editor_run` of src/core.c; Loop/Shown: the cursor in the window
--   Process   the process: the terminal's settings, SIGINT and `die` (src/core.c, src/util.c);
--             Process/Settings: `struct termios`; Process/Main: `main` of src/main.c, the start, the
--             loop over all that `poll` and `read` may do, and the end; Process/Restored: the
--             terminal after the process; Process/Ends: failed starts and the normal end;
--             Process/Rounds, Process/Shown: this loop is that of Loop
--   Tests     runs at concrete inputs
--
-- Choices: a string is the list of its bytes before the terminator, and its length is the length of
-- the list, as `strlen` computes it; a read at or behind the terminator gives 0. A row outside of the
-- array of lines reads as empty. `size_t` and `int` values are natural numbers, since all stay below
-- the sizes of objects in memory; differences that could be negative are written out. Memory
-- management is left out, as is `die` where an allocation fails. `qsort` is an insertion sort.
-- The messages to the terminal's clipboard and the contents of written files are fields of the
-- state; `ts_tree` is the text that it was parsed from, and the parse and the captures of the query
-- are parameters, functions of that text. `qsort` leaves spans that start at one point in their order.
--
-- Loops are structural, or run on rounds: the scans get a round for each byte that is left, the
-- searches one for each column or row, the movement over words one for each row, and the search of
-- the project's root one for each byte of the path and one more, which gets shorter in each round.
-- The doubling of an output buffer gets a round for each byte that is needed, `write_all` one for
-- each result of `write`, and `editor_loop` one for each `read`, or in Process for each event.
--
-- What the process does to the terminal is a list of calls, newest first. The answers of the system,
-- and the constants of <termios.h> and <fcntl.h>, are given.
--
-- Not modelled: a signal in the middle of the start or of the handling of a key, memory that cannot
-- be allocated after the start, what is freed at the end, and tree-sitter, which the code only calls.
pub mod Common
pub mod Os
pub mod Text
pub mod Utf8
pub mod Buffer
pub mod Contents
pub mod Scan
pub mod Frame
pub mod KillRing
pub mod Field
pub mod Search
pub mod Paths
pub mod Ignore
pub mod Fuzzy
pub mod Editor
pub mod Finder
pub mod Region
pub mod Isearch
pub mod Mouse
pub mod Input
pub mod Base64
pub mod Terminal
pub mod Output
pub mod Render
pub mod Loop
pub mod Process
mod Tests
