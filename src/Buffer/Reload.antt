-- ===== src/Buffer/Reload.antt =====
-- `buffer_load_file` of src/buffer.c reads back what `buffer_write_file` has written.
use ved.Common.{
  ℕ, ◌<◌, ◌≡◌, ◌≢◌, refl, sym, ap, ◌∙◌, true, false, some, List, [], ◌∷◌, ◌++◌, append-nil,
  append_assoc, arith, length, ◌==◌,
}
use ved.Os.{Os}
use ved.Text.{c_string, getlines}
use ved.Buffer.{
  Buffer, line_count, append_line, append_lines, clear, load_file, trim_newline, write_file,
}
use ved.Buffer.Saved.{file_text, Writes, write_file-all}

-- A line as a file can hold it: no NUL and no newline inside, and no carriage return at its end.
abbrev pub IsLine : List ℕ → Type 0
IsLine [] = Unit
IsLine (c ∷ []) = (c ≢ 0) × (c ≢ 10) × (c ≢ 13)
IsLine (c ∷ d ∷ rest) = (c ≢ 0) × (c ≢ 10) × IsLine (d ∷ rest)

abbrev pub AreLines : List (List ℕ) → Type 0
AreLines [] = Unit
AreLines (line ∷ rest) = IsLine line × AreLines rest

c_string-line : (line : List ℕ) → IsLine line → c_string line ≡ line
unfolding c_string
c_string-line [] h = refl
c_string-line (c ∷ []) h = ground arith
c_string-line (c ∷ d ∷ rest) h = ground (arith, c_string-line (d ∷ rest))

trim_newline-line : (line : List ℕ) → IsLine line → trim_newline (line ++ 10 ∷ []) ≡ line
unfolding trim_newline
trim_newline-line [] h = refl
trim_newline-line (c ∷ []) h = ground arith
trim_newline-line (c ∷ d ∷ rest) (z, n, h) = rw (trim_newline-line (d ∷ rest) h) refl

getlines-line :
    (line more : List ℕ)
    → IsLine line
    → getlines (line ++ 10 ∷ more) ≡ (line ++ 10 ∷ []) ∷ getlines more
unfolding getlines
getlines-line [] more h = refl
getlines-line (c ∷ []) more h = ground arith
getlines-line (c ∷ d ∷ rest) more (z, n, h) =
    let e : (c == 10) ≡ false = ground arith in rw (e, getlines-line (d ∷ rest) more h) refl

append_lines-file_text :
    (b : Buffer) (lines : List (List ℕ))
    → AreLines lines
    → (append_lines b (getlines (file_text lines))).lines ≡ b.lines ++ lines
unfolding append_lines file_text append_line getlines
append_lines-file_text b [] h = sym (append-nil b.lines)
append_lines-file_text b (line ∷ rest) (l, h) =
    ap (λ raw. (append_lines b raw).lines) (getlines-line line (file_text rest) l)
    ∙ ap (λ t. (append_lines (append_line b t) (getlines (file_text rest))).lines)
        (trim_newline-line line l)
    ∙ ap
        (λ t.
          (append_lines (record b { lines = b.lines ++ t ∷ [] }) (getlines (file_text rest))).lines)
        (c_string-line line l)
    ∙ append_lines-file_text (record b { lines = b.lines ++ line ∷ [] }) rest h
    ∙ append_assoc b.lines (line ∷ []) rest

-- A line is appended where nothing was loaded.
kept_lem :
    (b : Buffer)
    → 0 < length b.lines
    → Buffer.lines (elim b.lines [ [] ↦ append_line b [] | l ∷ ls ↦ b ]) ≡ b.lines
kept_lem b h = ground arith

load_file-file_text :
    (os : Os) (b : Buffer) (path : List ℕ) (lines : List (List ℕ))
    → os.fopen path ≡ some (file_text lines)
    → 0 < length lines
    → AreLines lines
    → (load_file os b path).lines ≡ lines
unfolding load_file
load_file-file_text os b path lines e n h =
    rw (load_file, e)
      (kept_lem (append_lines (record (clear b) { lines = [] }) (getlines (file_text lines)))
          (rw (append_lines-file_text (record (clear b) { lines = [] }) lines h) n)
        ∙ append_lines-file_text (record (clear b) { lines = [] }) lines h)

-- Where the calls succeed, `buffer_write_file` reports success; and what `buffer_load_file` then
-- reads from a file with these contents are the lines of the buffer, where it has a line and none
-- of them has a NUL or a newline inside or a carriage return at its end.
pub load_file-write_file :
    (os later : Os) (b old : Buffer) (path from : List ℕ)
    → Writes os path
    → 0 < line_count b
    → AreLines b.lines
    → later.fopen from ≡ (write_file os b path).1
    → ((write_file os b path).0 ≡ true) × ((load_file later old from).lines ≡ b.lines)
load_file-write_file os later b old path from w n h e =
    let done = write_file-all os path w b in
    (ap (λ o. o.0) done, load_file-file_text later old from b.lines (e ∙ ap (λ o. o.1) done) n h)
