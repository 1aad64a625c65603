-- ===== src/Region/Clean.antt =====
-- What is killed and yanked by src/input.c are C strings, and the lines stay without newlines.
use ved.Common.{
  ℕ, zero, suc, ◌-◌, ◌≡◌, Bool, true, Option, none, some, List, [], ◌∷◌, arith, ltb, ◌==◌, if_cases,
  if◌then◌else◌, take, drop,
}
use ved.Common.All.{All-take, All-drop}
use ved.Buffer.{Buffer, line_at}
use ved.Buffer.Clean.{
  CleanLine, CleanLines, line_at-CleanLine, insert_char-CleanLines, insert_newline-CleanLines,
  join_rows-CleanLines, delete_range-CleanLines, delete_region-CleanLines,
}
use ved.KillRing.{kill_set, current}
use ved.KillRing.Clean.{
  StringByte, CleanText, CleanEntry, CleanRing, append-CleanText, current-CleanEntry,
  kill_set-CleanRing,
}
use ved.Frame.{Frame}
use ved.Editor.{Editor, touch}
use ved.Region.{
  row_piece, copy_rows, region_bytes, region_text, copy_region, kill_text, kill_region,
  kill_newline_and_next, kill_columns, yank_byte, yank_bytes, yank_from, yank,
}

pub line-CleanText : (line : List ℕ) → CleanLine line → CleanText line
unfolding CleanLine CleanText
line-CleanText [] h = tt
line-CleanText (c ∷ line) ((z, n, p), h) = ((z, p), line-CleanText line h)

slice-CleanText :
    (line : List ℕ) (n from : ℕ) → CleanLine line → CleanText (take n (drop from line))
unfolding CleanText
slice-CleanText line n from h =
    All-take StringByte n (drop from line)
      (All-drop StringByte from line (unfold CleanText in line-CleanText line h))

no_text : CleanText []
unfolding CleanText
no_text = tt

newline-CleanText : CleanText (10 ∷ [])
unfolding CleanText
newline-CleanText = omega arith

module _ (b : Buffer) (h : CleanLines b.lines) where
  row_piece-CleanText : (start end : Frame) (row : ℕ) → CleanText (row_piece b start end row)
  unfolding row_piece
  row_piece-CleanText start end row =
      grind (arith, no_text, slice-CleanText (line_at b row), line_at-CleanLine b row h)

  copy_rows-CleanText :
      (k : ℕ) (start end : Frame) (row : ℕ) → CleanText (copy_rows k b start end row)
  unfolding copy_rows
  copy_rows-CleanText zero start end row = no_text
  copy_rows-CleanText (suc k) start end row =
      append-CleanText (row_piece b start end row) _ (row_piece-CleanText start end row) (
        append-CleanText (if ltb row end.row then 10 ∷ [] else [])
          (copy_rows k b start end (suc row))
          (if_cases CleanText (ltb row end.row) (λ _. newline-CleanText) (λ _. no_text))
          (copy_rows-CleanText k start end (suc row)))

  region_bytes-CleanText : (start end : Frame) → CleanText (region_bytes b start end)
  region_bytes-CleanText start end =
      unfold region_bytes in copy_rows-CleanText (suc end.row - start.row) start end start.row

-- The lines and the kill ring hold C strings, the lines without newlines.
abbrev pub IsClean : Editor → Type 0
IsClean ed = CleanLines ed.buffer.lines × CleanRing ed.kill_ring

yank_byte-CleanLines :
    (b : Buffer) (f : Frame) (c : ℕ)
    → StringByte c
    → CleanLines b.lines
    → CleanLines (Buffer.lines (yank_byte (b, f) c).0)
unfolding yank_byte
yank_byte-CleanLines b f c (z, p) h =
    if_cases (λ (o : Buffer × Frame). CleanLines (Buffer.lines o.0)) (c == 10)
      (λ _. insert_newline-CleanLines b h f.row f.col)
      (λ e. insert_char-CleanLines b h f.row f.col c (z, ground arith, p))

yank_bytes-CleanLines :
    (text : List ℕ) (at : Buffer × Frame)
    → CleanText text
    → CleanLines (Buffer.lines at.0)
    → CleanLines (Buffer.lines (yank_bytes at text).0)
unfolding yank_bytes CleanText
yank_bytes-CleanLines [] at p h = h
yank_bytes-CleanLines (c ∷ text) at (q, p) h =
    yank_bytes-CleanLines text (yank_byte at c) p (yank_byte-CleanLines at.0 at.1 c q h)

pub yank_from-IsClean :
    (ed : Editor) (entry : Option (List ℕ))
    → CleanEntry entry
    → IsClean ed
    → IsClean (yank_from ed entry).1
unfolding yank_from touch
yank_from-IsClean ed none p h = h
yank_from-IsClean ed (some text) p (b, k) =
    (yank_bytes-CleanLines text (ed.buffer, ed.frame) p b, k)

module _ (ed : Editor) (h : IsClean ed) where
  pub yank-IsClean : IsClean (yank ed).1
  unfolding yank
  yank-IsClean =
      if_cases (λ (o : Bool × Editor). IsClean o.1) (ed.kill_ring.len == 0) (λ _. h)
        (λ _. yank_from-IsClean ed (current ed.kill_ring) (current-CleanEntry ed.kill_ring h.1) h)

  region_text-CleanText :
      (start end : Frame) (text : List ℕ)
      → region_text ed.buffer start end ≡ some text
      → CleanText text
  unfolding region_text
  region_text-CleanText start end text e =
      ground (arith, region_bytes-CleanText ed.buffer h.0 start end)

  pub kill_region-IsClean : IsClean (kill_region ed).1
  unfolding kill_region kill_text touch
  kill_region-IsClean =
      grind (arith, region_text-CleanText, kill_set-CleanRing, delete_region-CleanLines)

  pub copy_region-IsClean : IsClean (copy_region ed).1
  unfolding copy_region
  copy_region-IsClean = grind (arith, region_text-CleanText, kill_set-CleanRing)

  pub kill_columns-IsClean : (from to : ℕ) → IsClean (kill_columns ed from to)
  unfolding kill_columns
  kill_columns-IsClean from to =
      let row = ed.frame.row in
      let clean = line_at-CleanLine ed.buffer row h.0 in
      ground (
        arith,
        delete_range-CleanLines ed.buffer h.0 row from to,
        kill_set-CleanRing ed.kill_ring (take (to - from) (drop from (line_at ed.buffer row)))
            ed.last_was_kill (slice-CleanText (line_at ed.buffer row) (to - from) from clean) h.1,
      )

  pub kill_newline_and_next-IsClean : IsClean (kill_newline_and_next ed)
  unfolding kill_newline_and_next
  kill_newline_and_next-IsClean =
      let row = ed.frame.row in
      let next = line_at ed.buffer (suc row) in
      let killed = kill_set ed.kill_ring (10 ∷ []) ed.last_was_kill in
      ground (
        arith,
        join_rows-CleanLines ed.buffer h.0 row,
        kill_set-CleanRing killed next true
            (line-CleanText next (line_at-CleanLine ed.buffer (suc row) h.0))
            (kill_set-CleanRing ed.kill_ring (10 ∷ []) ed.last_was_kill newline-CleanText h.1),
      )
