-- ===== src/Contents/Cursor.antt =====
-- What stands before and after the cursor when a byte has gone in there.
use ved.Common.{
  ℕ, zero, suc, ◌≤◌, ◌<◌, ◌≡◌, refl, ap, ◌∙◌, List, [], ◌∷◌, ◌++◌, append_assoc, arith, length,
  get_or, set, take, drop, length-set,
}
use ved.Buffer.Rows.{insert_row, remove_rows}
use ved.Contents.{before, after, tail_text}

take-insert :
    (line rest : List ℕ) (c ch : ℕ)
    → c ≤ length line
    → take (suc c) (take c line ++ ch ∷ rest) ≡ take c line ++ ch ∷ []
take-insert line rest zero ch h = refl
take-insert [] rest (suc c) ch h = elim h [ ]
take-insert (x ∷ line) rest (suc c) ch h = ap (x ∷◌) (take-insert line rest c ch (omega arith))

drop-insert :
    (line rest : List ℕ) (c ch : ℕ)
    → c ≤ length line
    → drop (suc c) (take c line ++ ch ∷ rest) ≡ rest
drop-insert line rest zero ch h = refl
drop-insert [] rest (suc c) ch h = elim h [ ]
drop-insert (x ∷ line) rest (suc c) ch h = drop-insert line rest c ch (omega arith)

pub before-insert :
    (ls : List (List ℕ)) (row c ch : ℕ)
    → row < length ls
    → c ≤ length (get_or ls row [])
    → let line = get_or ls row [] in
      before (set ls row (take c line ++ ch ∷ drop c line)) row (suc c) ≡ before ls row c ++ ch ∷ []
unfolding before
before-insert [] row c ch h k = elim h [ ]
before-insert (l ∷ ls) zero c ch h k = take-insert l (drop c l) c ch k
before-insert (l ∷ ls) (suc row) c ch h k =
    rw (before-insert ls row c ch (omega arith) k) (simp append_assoc)

pub after-insert :
    (ls : List (List ℕ)) (row c ch : ℕ)
    → row < length ls
    → c ≤ length (get_or ls row [])
    → let line = get_or ls row [] in
      after (set ls row (take c line ++ ch ∷ drop c line)) row (suc c) ≡ after ls row c
unfolding after
after-insert [] row c ch h k = elim h [ ]
after-insert (l ∷ ls) zero c ch h k = ap (λ t. t ++ tail_text ls) (drop-insert l (drop c l) c ch k)
after-insert (l ∷ ls) (suc row) c ch h k = after-insert ls row c ch (omega arith) k

pub before-split_row :
    (ls : List (List ℕ)) (row c : ℕ)
    → row < length ls
    → let line = get_or ls row [] in
      before (insert_row (set ls row (take c line)) (suc row) (drop c line)) (suc row) 0
      ≡ before ls row c ++ 10 ∷ []
unfolding before
before-split_row [] row c h = elim h [ ]
before-split_row (l ∷ ls) zero c h = refl
before-split_row (l ∷ ls) (suc row) c h =
    rw (before-split_row ls row c (omega arith)) (simp append_assoc)

pub after-split_row :
    (ls : List (List ℕ)) (row c : ℕ)
    → row < length ls
    → let line = get_or ls row [] in
      after (insert_row (set ls row (take c line)) (suc row) (drop c line)) (suc row) 0
      ≡ after ls row c
unfolding after
after-split_row [] row c h = elim h [ ]
after-split_row (l ∷ ls) zero c h = refl
after-split_row (l ∷ ls) (suc row) c h = after-split_row ls row c (omega arith)

take-take :
    (line rest : List ℕ) (c : ℕ) → c ≤ length line → take c (take c line ++ rest) ≡ take c line
take-take line rest zero h = refl
take-take [] rest (suc c) h = elim h [ ]
take-take (x ∷ line) rest (suc c) h = ap (x ∷◌) (take-take line rest c (omega arith))

pub before-set :
    (ls : List (List ℕ)) (r c : ℕ) (rest : List ℕ)
    → r < length ls
    → c ≤ length (get_or ls r [])
    → before (set ls r (take c (get_or ls r []) ++ rest)) r c ≡ before ls r c
unfolding before
before-set [] r c rest h k = elim h [ ]
before-set (l ∷ ls) zero c rest h k = take-take l rest c k
before-set (l ∷ ls) (suc r) c rest h k =
    ap (λ t. l ++ 10 ∷ t) (before-set ls r c rest (omega arith) k)

before-head :
    (ls below : List (List ℕ)) (r c : ℕ)
    → r < length ls
    → before (take (suc r) ls ++ below) r c ≡ before ls r c
unfolding before
before-head [] below r c h = elim h [ ]
before-head (l ∷ ls) below zero c h = refl
before-head (l ∷ ls) below (suc r) c h =
    ap (λ t. l ++ 10 ∷ t) (before-head ls below r c (omega arith))

-- After lines have been taken out, what stands before the cut is as it was.
pub before-remove_rows :
    (ls : List (List ℕ)) (r c s : ℕ) (rest : List ℕ)
    → r < length ls
    → c ≤ length (get_or ls r [])
    → before (remove_rows (set ls r (take c (get_or ls r []) ++ rest)) (suc r) s) r c
      ≡ before ls r c
before-remove_rows ls r c s rest h k =
    before-head (set ls r _) _ r c
      (omega (arith, length-set {0} ls r (take c (get_or ls r []) ++ rest)))
    ∙ before-set ls r c rest h k
