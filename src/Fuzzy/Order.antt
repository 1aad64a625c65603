-- ===== src/Fuzzy/Order.antt =====
-- The order that `qsort` by `match_compare` of src/finder.c puts the matches in.
use mathlib.Core.List.{Perm}
use mathlib.Core.List.Perm
use ved.Common.{◌≡◌, true, false, List, [], ◌∷◌, arith, if_cases}
use ved.Fuzzy.{FinderMatch, match_before, insert_match, sort_matches}

-- No match stands before one that `match_compare` puts in front of it.
pub data IsSorted : List FinderMatch → Type 0 where
  empty : IsSorted []
  one : (m : FinderMatch) → IsSorted (m ∷ [])
  more :
      (m n : FinderMatch) (rest : List FinderMatch)
      → match_before n m ≡ false
      → IsSorted (n ∷ rest)
      → IsSorted (m ∷ n ∷ rest)

match_before-asym : (m n : FinderMatch) → match_before m n ≡ true → match_before n m ≡ false
unfolding match_before
match_before-asym m n h = ground arith

insert_match-behind :
    (m n : FinderMatch) (rest : List FinderMatch)
    → match_before m n ≡ false
    → IsSorted (n ∷ rest)
    → IsSorted (n ∷ insert_match m rest)
unfolding insert_match
insert_match-behind m n [] h s = more n m [] h (one m)
insert_match-behind m n (k ∷ rest) h (more _ _ _ g s) =
    if_cases (λ l. IsSorted (n ∷ l)) (match_before m k)
      (λ t. more n m (k ∷ rest) h (more m k rest (match_before-asym m k t) s))
      (λ t. more n k (insert_match m rest) g (insert_match-behind m k rest t s))

insert_match-IsSorted :
    (m : FinderMatch) (rest : List FinderMatch) → IsSorted rest → IsSorted (insert_match m rest)
unfolding insert_match
insert_match-IsSorted m [] s = one m
insert_match-IsSorted m (n ∷ rest) s =
    if_cases IsSorted (match_before m n) (λ t. more m n rest (match_before-asym m n t) s)
      (λ t. insert_match-behind m n rest t s)

insert_match-Perm :
    (m : FinderMatch) (rest : List FinderMatch) → Perm (insert_match m rest) (m ∷ rest)
unfolding insert_match
insert_match-Perm m [] = Perm.refl (m ∷ [])
insert_match-Perm m (n ∷ rest) =
    if_cases (λ l. Perm l (m ∷ n ∷ rest)) (match_before m n) (λ t. Perm.refl (m ∷ n ∷ rest))
      (λ t. Perm.trans (Perm.cons n (insert_match-Perm m rest)) (Perm.swap m n rest))

-- The sorted list holds the matches of the list, each as often, and none of them stands before
-- one with a higher score, or with the same score and a lower index.
sort_matches-IsSorted :
    (list : List FinderMatch) → IsSorted (sort_matches list) × Perm (sort_matches list) list
unfolding sort_matches
sort_matches-IsSorted [] = (empty, Perm.refl [])
sort_matches-IsSorted (m ∷ rest) =
    let (s, p) = sort_matches-IsSorted rest in
    (
      insert_match-IsSorted m (sort_matches rest) s,
      Perm.trans (insert_match-Perm m (sort_matches rest)) (Perm.cons m p),
    )
