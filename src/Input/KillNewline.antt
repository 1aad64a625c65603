-- ===== src/Input/KillNewline.antt =====
-- What `C-k` at the end of a line of src/input.c takes out of the text, and what it kills.
use ved.Common.{
  ℕ, suc, ◌<◌, ◌≡◌, refl, sym, ap, ◌∙◌, true, false, Bool, some, List, [], ◌∷◌, ◌++◌, if◌then◌else◌,
  arith, length, ltb, leb, ◌==◌, drop_all, append-nil, append_assoc,
}
use ved.Buffer.{line_count, line_at, line_length, join_rows}
use ved.Buffer.Refine.{line_length-eq}
use ved.Buffer.Delete.{text-join_rows}
use ved.Contents.{text, before, after, before-append-after}
use ved.Editor.{Editor, touch}
use ved.KillRing.{KillRing, kill_set, open_entry, extend_entry, current}
use ved.KillRing.Laws.{IsValid, current-kill_set, kill_set-IsValid, makes_new, text_of}
use ved.Region.{kill_newline_and_next}
use ved.Region.Copy.{after-row}
use ved.Input.Command.{kill_line}

-- The ring is not empty after a kill of something.
len-kill_set :
    (k : KillRing) (c : ℕ) (more : List ℕ) (append : Bool) → 0 < (kill_set k (c ∷ more) append).len
unfolding kill_set open_entry extend_entry
len-kill_set k c more append = ground arith

-- A kill that goes on with the entry before, which may kill nothing.
current-appended :
    (k : KillRing) (t more : List ℕ)
    → IsValid k
    → 0 < k.len
    → current k ≡ some t
    → current (kill_set k more true) ≡ some (t ++ more)
unfolding kill_set
current-appended k t [] v h e = e ∙ ap some (sym (append-nil t))
current-appended k t (c ∷ more) v h e =
    let used : (k.len == 0) ≡ false = ground arith in
    current-kill_set k c more true v ∙ rw (used, e) refl

-- `C-k` behind the last byte of a line that is not the last one takes the newline out of the text,
-- and nothing else; but what it kills is the newline and the whole next line, which stays in the
-- text. The kill goes on with the entry before if the last command was a kill.
pub kill_line-newline :
    (ed : Editor)
    → IsValid ed.kill_ring
    → suc ed.frame.row < line_count ed.buffer
    → ed.frame.col ≡ line_length ed.buffer ed.frame.row
    → let row = ed.frame.row in
      let lines = ed.buffer.lines in
      let next = line_at ed.buffer (suc row) in
      let killed = kill_line ed in
      let gone =
        if makes_new ed.kill_ring ed.last_was_kill then [] else text_of (current ed.kill_ring) in
      (text lines ≡ before lines row ed.frame.col ++ 10 ∷ after lines (suc row) 0)
      × (text killed.buffer.lines ≡ before lines row ed.frame.col ++ after lines (suc row) 0)
      × (current killed.kill_ring ≡ some (gone ++ 10 ∷ next))
unfolding kill_line kill_newline_and_next touch
kill_line-newline ed v h e = rw (inside, below, past) (whole, left, ring)
  where
    row : ℕ
    row = ed.frame.row

    inside : ltb ed.frame.col (line_length ed.buffer row) ≡ false
    inside = ground arith

    below : ltb (suc row) (line_count ed.buffer) ≡ true
    below = ground arith

    past : leb (line_count ed.buffer) (suc row) ≡ false
    past = ground arith

    at_end : length (line_at ed.buffer row) ≡ ed.frame.col
    at_end = sym (line_length-eq ed.buffer row (omega arith)) ∙ sym e

    whole :
        text ed.buffer.lines
        ≡ before ed.buffer.lines row ed.frame.col ++ 10 ∷ after ed.buffer.lines (suc row) 0
    whole =
        sym (before-append-after ed.buffer.lines row ed.frame.col (omega arith))
        ∙ ap (λ t. before ed.buffer.lines row ed.frame.col ++ t)
            (after-row ed.buffer.lines row ed.frame.col h
              ∙ ap (λ t. t ++ 10 ∷ after ed.buffer.lines (suc row) 0)
                  (drop_all ed.frame.col (line_at ed.buffer row) (omega (arith, at_end))))

    left :
        text (join_rows ed.buffer row).lines
        ≡ before ed.buffer.lines row ed.frame.col ++ after ed.buffer.lines (suc row) 0
    left =
        text-join_rows ed.buffer row h
        ∙ ap (λ c. before ed.buffer.lines row c ++ after ed.buffer.lines (suc row) 0) at_end

    gone : List ℕ
    gone = if makes_new ed.kill_ring ed.last_was_kill then [] else text_of (current ed.kill_ring)

    next : List ℕ
    next = line_at ed.buffer (suc row)

    one : KillRing
    one = kill_set ed.kill_ring (10 ∷ []) ed.last_was_kill

    ring : current (kill_set one next true) ≡ some (gone ++ 10 ∷ next)
    ring =
        current-appended one (gone ++ 10 ∷ []) next
          (kill_set-IsValid ed.kill_ring (10 ∷ []) ed.last_was_kill v)
          (len-kill_set ed.kill_ring 10 [] ed.last_was_kill)
          (current-kill_set ed.kill_ring 10 [] ed.last_was_kill v)
        ∙ ap some (append_assoc gone (10 ∷ []) next)
