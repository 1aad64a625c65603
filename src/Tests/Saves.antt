-- ===== src/Tests/Saves.antt =====
-- Files that are written and read back, and the cursor in the window.
use ved.Common.{◌≡◌, ◌⊎◌, inl, refl, true, false, some, List, [], ◌∷◌, arith, length}
use ved.Text.{codes}
use ved.Os.{Os}
use ved.Buffer.{Buffer, line_count, load_file, write_file}
use ved.Buffer
use ved.Buffer.Saved.{file_text, Writes, HoldsPart, write_file-contents}
use ved.Buffer.Reload.{AreLines, load_file-write_file}
use ved.Editor.{Editor, editor_create}
use ved.Input.{editor_process_key}
use ved.Input.Prompt.{save}
use ved.Input.Saving.{save_lem}
use ved.Input.PlacedSearch.{IsPlaced}
use ved.Input.PlacedKeys.{editor_process_key-IsPlaced}
use ved.Loop.{Input}
use ved.Tests.{apart, bare_os, doc, pos_at, started}

-- A system that writes what it is given.
abbrev writing_os : Os
writing_os = record bare_os { write = λ out chunk. some (length chunk) }

writing : Writes writing_os (codes "f")
writing = record { opens = refl; writes = λ out chunk. refl; closes = refl }

write_file-contents_example :
    let (written, contents) = write_file writing_os doc (codes "f") in
    HoldsPart (file_text doc.lines) contents
    × ((written ≡ false) ⊎ (contents ≡ some (file_text doc.lines)))
write_file-contents_example = write_file-contents writing_os doc (codes "f")

-- The same system once the file is there.
abbrev later_os : Os
later_os = record writing_os { fopen = λ path. (write_file writing_os doc (codes "f")).1 }

doc-AreLines : AreLines doc.lines
doc-AreLines = (
  (
    apart 97 0 (omega arith),
    apart 97 10 (omega arith),
    (apart 98 0 (omega arith), apart 98 10 (omega arith), apart 98 13 (omega arith)),
  ),
  (
    (
      apart 99 0 (omega arith),
      apart 99 10 (omega arith),
      (
        apart 0xc3 0 (omega arith),
        apart 0xc3 10 (omega arith),
        (apart 0xa9 0 (omega arith), apart 0xa9 10 (omega arith), apart 0xa9 13 (omega arith)),
      ),
    ),
    ((apart 100 0 (omega arith), apart 100 10 (omega arith), apart 100 13 (omega arith)), tt),
  ),
)

load_file-write_file_example :
    ((write_file writing_os doc (codes "f")).0 ≡ true)
    × ((load_file later_os Buffer.init (codes "f")).lines ≡ doc.lines)
load_file-write_file_example =
    load_file-write_file writing_os later_os doc Buffer.init (codes "f") (codes "f") writing
      (omega arith) doc-AreLines refl

abbrev changed : Editor
changed = record started { buffer = doc; dirty = true; frame = pos_at 1 0 }

save_lem_example :
    let after = save writing_os changed (codes "f") false in
    (after.dirty ≡ true) ⊎ (after.saved ≡ (codes "f", file_text doc.lines) ∷ changed.saved)
save_lem_example = save_lem writing_os changed (codes "f") false refl

editor_process_key-IsPlaced_example : IsPlaced (editor_process_key bare_os changed 127)
unfolding editor_create
editor_process_key-IsPlaced_example =
    editor_process_key-IsPlaced bare_os changed 127 (inl refl)
      (record { cursor = omega arith; search = inl refl })

-- A line is typed, and the window gets smaller.
abbrev inputs : List Input
inputs = record { keys = 97 ∷ 13 ∷ 98 ∷ []; rows = 2; cols = 10 } ∷ []
