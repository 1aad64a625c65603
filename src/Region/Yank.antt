-- ===== src/Region/Yank.antt =====
-- The yank of src/input.c puts a text into the buffer at the cursor.
use ved.Common.{
  ℕ, suc, ◌≤◌, ◌<◌, ◌≡◌, refl, sym, ap, ◌∙◌, some, List, [], ◌∷◌, ◌++◌, append_assoc, append-nil,
  arith, length, set, take, drop, lt→leb_false, le→ltb_false, if_cases, ◌==◌, length-append,
  length-take, length-set, get_or-set_self, ==→eq,
}
use ved.Buffer.{Buffer, line_count, line_at, line_length, insert_char, insert_newline}
use ved.Buffer.Refine.{line_length-eq}
use ved.Contents.{text, before, after, before-append-after}
use ved.Buffer.Rows.{insert_row}
use ved.Contents.Cursor.{before-insert, after-insert, before-split_row, after-split_row}
use ved.Frame.{Frame}
use ved.Frame.Bounds.{InText}
use ved.Editor.{Editor, touch}
use ved.Region.{yank_byte, yank_bytes, yank_from}

-- The cursor has moved over a text that was put in before it.
record Moved (front back : List ℕ) (at : Buffer × Frame) : Type 0 where
  in_text : InText at.0 at.1
  before_eq : before at.0.lines at.1.row at.1.col ≡ front
  after_eq : after at.0.lines at.1.row at.1.col ≡ back

insert_char-lines :
    (b : Buffer) (f : Frame) (ch : ℕ)
    → InText b f
    → let line = line_at b f.row in
      (insert_char b f.row f.col ch).lines
      ≡ set b.lines f.row (take f.col line ++ ch ∷ drop f.col line)
unfolding insert_char
insert_char-lines b f ch v =
    rw (
      lt→leb_false (line_count b) f.row v.row_in,
      le→ltb_false (line_length b f.row) f.col v.col_in,
    )

insert_newline-lines :
    (b : Buffer) (f : Frame)
    → InText b f
    → let line = line_at b f.row in
      (insert_newline b f.row f.col).lines
      ≡ insert_row (set b.lines f.row (take f.col line)) (suc f.row) (drop f.col line)
unfolding insert_newline
insert_newline-lines b f v =
    rw (
      lt→leb_false (line_count b) f.row v.row_in,
      le→ltb_false (line_length b f.row) f.col v.col_in,
    )

-- A byte that goes in is on the line, and the cursor may stand behind it.
insert_char-InText :
    (b : Buffer) (f : Frame) (ch : ℕ)
    → InText b f
    → InText (insert_char b f.row f.col ch) (record f { col = suc f.col })
insert_char-InText b f ch v = record { row_in = rows; col_in = col }
  where
    line : List ℕ
    line = line_at b f.row

    grown : List ℕ
    grown = take f.col line ++ ch ∷ drop f.col line

    fits : f.col ≤ length line
    fits = rw (← line_length-eq b f.row v.row_in) v.col_in

    rows : f.row < line_count (insert_char b f.row f.col ch)
    rows = rw (insert_char-lines b f ch v, length-set b.lines f.row grown) v.row_in

    len : suc f.col ≤ length grown
    len = rw (length-append, length-take) (omega (arith, fits))

    col : suc f.col ≤ line_length (insert_char b f.row f.col ch) f.row
    col =
        rw
          (
            line_length-eq (insert_char b f.row f.col ch) f.row rows,
            insert_char-lines b f ch v,
            get_or-set_self b.lines f.row grown [] v.row_in,
          )
          len

insert_newline-InText :
    (b : Buffer) (f : Frame)
    → InText b f
    → InText (insert_newline b f.row f.col) (record { row = suc f.row; col = 0 })
insert_newline-InText b f v = record { row_in = rows; col_in = omega arith }
  where
    head : List (List ℕ)
    head = set b.lines f.row (take f.col (line_at b f.row))

    grown : suc f.row < length (insert_row head (suc f.row) (drop f.col (line_at b f.row)))
    grown =
        rw (length-append, length-take, length-set b.lines f.row (take f.col (line_at b f.row)))
          (let h : f.row < length b.lines = v.row_in in omega (arith, h))

    rows : suc f.row < line_count (insert_newline b f.row f.col)
    rows = rw (insert_newline-lines b f v) grown

module _ (b : Buffer) (f : Frame) (front back : List ℕ) (m : Moved front back (b, f)) where
  newline-Moved :
      (ch : ℕ)
      → ch ≡ 10
      → Moved
          (front ++ ch ∷ [])
          back
          (insert_newline b f.row f.col, record { row = suc f.row; col = 0 })
  newline-Moved ch e = record {
    in_text = insert_newline-InText b f m.in_text;
    before_eq =
        ap (λ ls. before ls (suc f.row) 0) (insert_newline-lines b f m.in_text)
        ∙ before-split_row b.lines f.row f.col m.in_text.row_in
        ∙ ap (λ t. t ++ 10 ∷ []) m.before_eq
        ∙ ap (λ c. front ++ c ∷ []) (sym e);
    after_eq =
        ap (λ ls. after ls (suc f.row) 0) (insert_newline-lines b f m.in_text)
        ∙ after-split_row b.lines f.row f.col m.in_text.row_in
        ∙ m.after_eq;
  }

  char-Moved :
      (ch : ℕ)
      → Moved (front ++ ch ∷ []) back (insert_char b f.row f.col ch, record f { col = suc f.col })
  char-Moved ch = record {
    in_text = insert_char-InText b f ch m.in_text;
    before_eq =
        ap (λ ls. before ls f.row (suc f.col)) (insert_char-lines b f ch m.in_text)
        ∙ before-insert b.lines f.row f.col ch m.in_text.row_in fits
        ∙ ap (λ t. t ++ ch ∷ []) m.before_eq;
    after_eq =
        ap (λ ls. after ls f.row (suc f.col)) (insert_char-lines b f ch m.in_text)
        ∙ after-insert b.lines f.row f.col ch m.in_text.row_in fits
        ∙ m.after_eq;
  }
    where
      fits : f.col ≤ length (line_at b f.row)
      fits = rw (← line_length-eq b f.row m.in_text.row_in) m.in_text.col_in

  yank_byte-Moved : (ch : ℕ) → Moved (front ++ ch ∷ []) back (yank_byte (b, f) ch)
  unfolding yank_byte
  yank_byte-Moved ch =
      if_cases (Moved (front ++ ch ∷ []) back) (ch == 10) (λ t. newline-Moved ch (==→eq ch 10 t))
        (λ t. char-Moved ch)

yank_bytes-Moved :
    (text front back : List ℕ) (at : Buffer × Frame)
    → Moved front back at
    → Moved (front ++ text) back (yank_bytes at text)
unfolding yank_bytes
yank_bytes-Moved [] front back at m = record {
  in_text = m.in_text;
  before_eq = m.before_eq ∙ sym (append-nil front);
  after_eq = m.after_eq;
}
yank_bytes-Moved (ch ∷ rest) front back (b, f) m = rw (sym (append_assoc front (ch ∷ []) rest)) (
    yank_bytes-Moved rest (front ++ ch ∷ []) back (yank_byte (b, f) ch)
      (yank_byte-Moved b f front back m ch))

-- A yank at a cursor in the text puts the entry into the text between what stands before the
-- cursor and what stands after it, leaves the cursor in the text behind the entry, and sets the
-- yanked range to start where the cursor was and to end where it is.
pub text-yank_from :
    (ed : Editor) (entry : List ℕ)
    → InText ed.buffer ed.frame
    → let front = before ed.buffer.lines ed.frame.row ed.frame.col in
      let back = after ed.buffer.lines ed.frame.row ed.frame.col in
      let ed' = (yank_from ed (some entry)).1 in
      (text ed'.buffer.lines ≡ front ++ (entry ++ back))
      × (before ed'.buffer.lines ed'.frame.row ed'.frame.col ≡ front ++ entry)
      × InText ed'.buffer ed'.frame
      × (ed'.yank_start ≡ ed.frame)
      × (ed'.yank_end ≡ ed'.frame)
unfolding yank_from touch line_length
text-yank_from ed entry v = (
  sym (before-append-after (at.0).lines (at.1).row (at.1).col m.in_text.row_in)
      ∙ ap (λ t. t ++ after (at.0).lines (at.1).row (at.1).col) m.before_eq
      ∙ ap ((front ++ entry) ++◌) m.after_eq
      ∙ append_assoc front entry back,
  m.before_eq,
  record { row_in = m.in_text.row_in; col_in = m.in_text.col_in },
  refl,
  refl,
)
  where
    front : List ℕ
    front = before ed.buffer.lines ed.frame.row ed.frame.col

    back : List ℕ
    back = after ed.buffer.lines ed.frame.row ed.frame.col

    at : Buffer × Frame
    at = yank_bytes (ed.buffer, ed.frame) entry

    m : Moved (front ++ entry) back (yank_bytes (ed.buffer, ed.frame) entry)
    m =
        yank_bytes-Moved entry front back (ed.buffer, ed.frame)
          (record { in_text = v; before_eq = refl; after_eq = refl })
