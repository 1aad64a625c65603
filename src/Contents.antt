-- ===== src/Contents.antt =====
-- The abstract view of a buffer (src/buffer.c): one text, the lines joined by newlines, which is
-- what `build_buffer_text` of src/render.c hands to the parser, cut in two at a position.
pub mod Cursor
use ved.Common.{
  ℕ, zero, suc, ◌<◌, ◌≡◌, refl, sym, List, [], ◌∷◌, ◌++◌, append_assoc, arith, length, get_or, set,
  take, drop, length-set, take-append-drop,
}
use ved.Buffer.Rows.{insert_row, remove_rows}

-- The lines behind a line, each after its newline.
unfoldable pub tail_text : List (List ℕ) → List ℕ
tail_text [] = []
tail_text (l ∷ ls) = 10 ∷ l ++ tail_text ls

unfoldable pub text : List (List ℕ) → List ℕ
unfolding tail_text
text [] = []
text (l ∷ ls) = l ++ tail_text ls

-- The text before the position (row, col), and the text from it on.
unfoldable pub before : List (List ℕ) → ℕ → ℕ → List ℕ
before [] row col = []
before (l ∷ ls) zero col = take col l
before (l ∷ ls) (suc row) col = l ++ 10 ∷ before ls row col

unfoldable pub after : List (List ℕ) → ℕ → ℕ → List ℕ
unfolding tail_text
after [] row col = []
after (l ∷ ls) zero col = drop col l ++ tail_text ls
after (l ∷ ls) (suc row) col = after ls row col

tail_text-eq : (ls : List (List ℕ)) → 0 < length ls → tail_text ls ≡ 10 ∷ text ls
unfolding text
tail_text-eq [] h = elim h [ ]
tail_text-eq (l ∷ ls) h = refl

-- A line stands above the lines of a text that is cut in two.
text-cons_row :
    (l front back : List ℕ) (ls : List (List ℕ))
    → 0 < length ls
    → text ls ≡ front ++ back
    → text (l ∷ ls) ≡ (l ++ 10 ∷ front) ++ back
text-cons_row l front back ls h e =
    unfold text in rw (tail_text-eq ls h, e) (sym (append_assoc l (10 ∷ front) back))

pos_set : (ls : List (List ℕ)) (row : ℕ) (x : List ℕ) → row < length ls → 0 < length (set ls row x)
pos_set ls row x h = omega (arith, length-set {0} ls row x)

pos_take :
    (ls rest : List (List ℕ)) (row : ℕ) (x : List ℕ)
    → row < length ls
    → 0 < length (take (suc row) (set ls row x) ++ rest)
pos_take [] rest row x h = elim h [ ]
pos_take (l ∷ ls) rest zero x h = omega arith
pos_take (l ∷ ls) rest (suc row) x h = omega arith

-- A text is what stands before a position and what stands after it.
pub before-append-after :
    (ls : List (List ℕ)) (row col : ℕ)
    → row < length ls
    → before ls row col ++ after ls row col ≡ text ls
unfolding before after text
before-append-after [] row col h = elim h [ ]
before-append-after (l ∷ ls) zero col h = rw (← append_assoc, take-append-drop)
before-append-after (l ∷ ls) (suc row) col h = sym (
    text-cons_row l (before ls row col) (after ls row col) ls (omega arith)
      (sym (before-append-after ls row col (omega arith))))

-- One line is rewritten between two of its columns.
pub text-splice :
    (ls : List (List ℕ)) (row c d : ℕ) (mid : List ℕ)
    → row < length ls
    → let line = get_or ls row [] in
      text (set ls row (take c line ++ (mid ++ drop d line)))
      ≡ before ls row c ++ (mid ++ after ls row d)
unfolding before after text
text-splice [] row c d mid h = elim h [ ]
text-splice (l ∷ ls) zero c d mid h = simp append_assoc
text-splice (l ∷ ls) (suc row) c d mid h =
    text-cons_row l (before ls row c) (mid ++ after ls row d) _ (pos_set ls row _ (omega arith))
      (text-splice ls row c d mid (omega arith))

-- A newline goes in at a position.
pub text-split_row :
    (ls : List (List ℕ)) (row c : ℕ)
    → row < length ls
    → let line = get_or ls row [] in
      text (insert_row (set ls row (take c line)) (suc row) (drop c line))
      ≡ before ls row c ++ 10 ∷ after ls row c
unfolding before after text
text-split_row [] row c h = elim h [ ]
text-split_row (l ∷ ls) zero c h = refl
text-split_row (l ∷ ls) (suc row) c h =
    text-cons_row l (before ls row c) (10 ∷ after ls row c) _ (pos_take ls _ row _ (omega arith))
      (text-split_row ls row c (omega arith))

pub after-eq :
    (ls : List (List ℕ)) (row c : ℕ)
    → row < length ls
    → after ls row c ≡ drop c (get_or ls row []) ++ tail_text (drop (suc row) ls)
unfolding after
after-eq [] row c h = elim h [ ]
after-eq (l ∷ ls) zero c h = refl
after-eq (l ∷ ls) (suc row) c h = after-eq ls row c (omega arith)

-- What stands between two positions on different lines goes out.
pub text-remove_rows :
    (ls : List (List ℕ)) (r c s d : ℕ)
    → r < s
    → s < length ls
    → let merged = take c (get_or ls r []) ++ drop d (get_or ls s []) in
      text (remove_rows (set ls r merged) (suc r) (suc s)) ≡ before ls r c ++ after ls s d
unfolding before after text
text-remove_rows [] r c s d h k = elim k [ ]
text-remove_rows (l ∷ ls) r c zero d h k = elim h [ ]
text-remove_rows (l ∷ ls) zero c (suc s) d h k = simp (append_assoc, after-eq ls s d (omega arith))
text-remove_rows (l ∷ ls) (suc r) c (suc s) d h k =
    text-cons_row l (before ls r c) (after ls s d) _ (pos_take ls _ r _ (omega arith))
      (text-remove_rows ls r c s d (omega arith) (omega arith))
