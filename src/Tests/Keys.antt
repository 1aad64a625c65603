-- ===== src/Tests/Keys.antt =====
-- Searches, kills and the list of the finder.
use ved.Common.{none, ◌≡◌, inl, inr, refl, true, false, some, [], ◌∷◌, ◌++◌, arith}
use ved.Text.{codes}
use ved.Buffer.{line_at, line_length}
use ved.Contents.{text, before, after}
use ved.KillRing.{current}
use ved.KillRing.Laws.{empty-IsValid}
use ved.Editor.{Editor, Finder, editor_create, empty_finder}
use ved.Finder.{finder_handle_key, update_matches}
use ved.Finder.Listed.{IsListed, update_matches-IsListed, finder_handle_key-IsListed}
use ved.Input.{editor_process_key, process_keys}
use ved.Input.Bounded.{IsBounded}
use ved.Input.BoundedKeys.{editor_process_key-IsBounded, editor_create-IsBounded}
use ved.Buffer.CleanFile.{HoldsBytes}
use ved.Os.{Os}
use ved.Region.Clean.{IsClean}
use ved.Input.CleanKeys.{editor_process_key-IsClean, editor_create-IsClean}
use ved.Input.Command.{kill_line}
use ved.Input.SearchCancel.{IsIdle, search_cancel}
use ved.Input.Flags.{killed}
use ved.Input.KillNewline.{kill_line-newline}
use ved.Tests.{bare_os, doc, pos_at, started}

abbrev editing : Editor
editing = record started { buffer = doc; frame = pos_at 0 2 }

editing-IsIdle : IsIdle editing
unfolding editor_create empty_finder
editing-IsIdle = record {
  no_escape = refl;
  no_finder = refl;
  no_search = refl;
  no_prompt = refl;
  no_ctrl_x = refl;
}

-- `C-s d C-g`
search_cancel_example :
    let done = process_keys bare_os editing (19 ∷ 100 ∷ 7 ∷ []) in
    (done.frame ≡ pos_at 0 2) × (done.buffer ≡ doc) × (done.isearch_active ≡ false)
search_cancel_example =
    search_cancel bare_os editing 19 (100 ∷ []) editing-IsIdle (inl refl)
      (inr (inr (inr (omega arith))), tt)

kill_line-newline_example :
    let killed = kill_line editing in
    (text doc.lines ≡ before doc.lines 0 2 ++ 10 ∷ after doc.lines 1 0)
    × (text killed.buffer.lines ≡ before doc.lines 0 2 ++ after doc.lines 1 0)
    × (current killed.kill_ring ≡ some (10 ∷ line_at doc 1))
unfolding editor_create line_length
kill_line-newline_example = kill_line-newline editing empty-IsValid (omega arith) refl

-- The cursor is at the start of the text.
abbrev at_start : Editor
at_start = record editing { frame = pos_at 0 0 }

-- A finder of two files, whose query is empty.
abbrev finding : Finder
finding = update_matches (record {
  active = true;
  query = record { bytes = []; col = 0 };
  project_root = some (codes "/p");
  files = codes "a" ∷ codes "b" ∷ [];
  matches = [];
  selection = 1;
  scroll = 0;
})

finder_handle_key-IsListed_example :
    IsListed (finder_handle_key bare_os (record started { finder = finding }) b'b').finder
finder_handle_key-IsListed_example =
    finder_handle_key-IsListed bare_os (record started { finder = finding }) b'b'
      (update_matches-IsListed _)

editor_process_key-IsBounded_example : IsBounded (editor_process_key bare_os started 97)
editor_process_key-IsBounded_example =
    editor_process_key-IsBounded bare_os started 97 (editor_create-IsBounded bare_os none 24 80)

-- A system where every path leads to the same file.
abbrev filled_os : Os
filled_os = record bare_os { fopen = λ path. some (99 ∷ 0 ∷ 100 ∷ 10 ∷ []) }

filled_os-HoldsBytes : HoldsBytes filled_os
filled_os-HoldsBytes path contents e = ground arith

editor_process_key-IsClean_example :
    IsClean (editor_process_key filled_os (editor_create filled_os (some (codes "a.c")) 24 80) 97)
editor_process_key-IsClean_example =
    editor_process_key-IsClean filled_os filled_os-HoldsBytes
      (editor_create filled_os (some (codes "a.c")) 24 80) 97
      (editor_create-IsClean filled_os filled_os-HoldsBytes (some (codes "a.c")) 24 80)
      (omega arith)
