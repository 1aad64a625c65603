-- ===== src/Region/Killed.antt =====
-- A kill of a part of a line in src/input.c: what leaves the text, and what is in the kill ring.
use ved.Common.{
  ℕ, suc, ◌-◌, ◌≤◌, ◌<◌, ◌≡◌, sym, ap, ◌∙◌, Bool, some, List, [], ◌∷◌, ◌++◌, if◌then◌else◌, arith,
  length, take, drop, lt→ltb, length-take, length-drop, append_assoc,
}
use ved.Buffer.{line_count, line_at}
use ved.Buffer.Refine.{text-delete_range}
use ved.Contents.{text, tail_text, before, after, before-append-after, after-eq}
use ved.Editor.{Editor}
use ved.KillRing.{KillRing, kill_set, current}
use ved.KillRing.Laws.{IsValid, current-kill_set, makes_new, text_of}
use ved.Region.{kill_columns}
use ved.Region.Copy.{take-drop_end}

-- A kill of something is in the ring.
current-killed :
    (k : KillRing) (bytes : List ℕ) (append : Bool)
    → IsValid k
    → 0 < length bytes
    → current (kill_set k bytes append)
      ≡ some ((if makes_new k append then [] else text_of (current k)) ++ bytes)
current-killed k [] append v h = elim h [ ]
current-killed k (c ∷ more) append v h = current-kill_set k c more append v

-- The bytes between two columns are killed and go out of the text.
abbrev pub IsKilled : Editor → ℕ → ℕ → Editor → Type 0
IsKilled ed from to ed' =
    let row = ed.frame.row in
    let bytes = take (to - from) (drop from (line_at ed.buffer row)) in
    let gone =
      if makes_new ed.kill_ring ed.last_was_kill then [] else text_of (current ed.kill_ring) in
    (text ed.buffer.lines
      ≡ before ed.buffer.lines row from ++ (bytes ++ after ed.buffer.lines row to))
    × (text ed'.buffer.lines ≡ before ed.buffer.lines row from ++ after ed.buffer.lines row to)
    × (current ed'.kill_ring ≡ some (gone ++ bytes))

pub kill_columns-IsKilled :
    (ed : Editor) (from to : ℕ)
    → IsValid ed.kill_ring
    → ed.frame.row < line_count ed.buffer
    → from < to
    → to ≤ length (line_at ed.buffer ed.frame.row)
    → IsKilled ed from to (kill_columns ed from to)
unfolding kill_columns
kill_columns-IsKilled ed from to v h p q =
    rw (lt→ltb from to p) (whole, text-delete_range ed.buffer row from to h (omega arith), ring)
  where
    row : ℕ
    row = ed.frame.row

    line : List ℕ
    line = line_at ed.buffer row

    whole :
        text ed.buffer.lines
        ≡ before ed.buffer.lines row from
          ++ (take (to - from) (drop from line) ++ after ed.buffer.lines row to)
    whole =
        sym (before-append-after ed.buffer.lines row from h)
        ∙ ap (λ t. before ed.buffer.lines row from ++ t)
            (after-eq ed.buffer.lines row from h
              ∙ ap (λ t. t ++ tail_text (drop (suc row) ed.buffer.lines))
                  (sym (take-drop_end line from to (omega arith)))
              ∙ append_assoc (take (to - from) (drop from line)) (drop to line)
                  (tail_text (drop (suc row) ed.buffer.lines))
              ∙ ap (λ t. take (to - from) (drop from line) ++ t)
                  (sym (after-eq ed.buffer.lines row to h)))

    ring :
        current (kill_set ed.kill_ring (take (to - from) (drop from line)) ed.last_was_kill)
        ≡ some (
            (if makes_new ed.kill_ring ed.last_was_kill then [] else text_of (current ed.kill_ring))
            ++ take (to - from) (drop from line))
    ring =
        current-killed ed.kill_ring (take (to - from) (drop from line)) ed.last_was_kill v
          (omega (arith, length-take (to - from) (drop from line), length-drop from line))
