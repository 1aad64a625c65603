-- ===== src/Fuzzy.antt =====
-- The fuzzy matching of src/finder.c: scores, and the order of the matches.
pub mod Order
pub mod Score
use ved.Common.{
  ℕ, zero, suc, ◌+◌, ◌-◌, Bool, true, false, ◌||◌, Option, none, some, List, [], ◌∷◌, ltb, ◌==◌,
  if◌then◌else◌, length, map,
}
use ved.Common.Int.{ℤ, pos, negsuc, sub_ℕ}
use ved.Text.{tolower}

-- Whether the byte before a match, if any, makes it the start of a word.
unfoldable pub starts_word : Option ℕ → Bool
starts_word none = true
starts_word (some c) = c == b'/' || c == b'_' || c == b'-' || c == 32

unfoldable pub match_bonus : ℕ → Option ℕ → ℕ
unfolding starts_word
match_bonus streak prev = 10 + (if ltb 0 streak then 6 else 0) + (if starts_word prev then 4 else 0)

-- The loop of `fuzzy_score`: the bonuses, and `none` where some of the pattern is left.
unfoldable pub fuzzy_from : List ℕ → List ℕ → Option ℕ → ℕ → ℕ → Option ℕ
unfolding match_bonus
fuzzy_from [] text prev streak score = some score
fuzzy_from (p ∷ pattern) [] prev streak score = none
fuzzy_from (p ∷ pattern) (t ∷ text) prev streak score =
    let hit = fuzzy_from pattern text (some t) (suc streak) (score + match_bonus streak prev) in
    let miss = fuzzy_from (p ∷ pattern) text (some t) 0 score in
    if tolower p == tolower t then hit else miss

unfoldable pub fuzzy_score : List ℕ → List ℕ → ℤ
unfolding fuzzy_from
fuzzy_score [] text = pos 0
fuzzy_score (p ∷ pattern) text = elim (fuzzy_from (p ∷ pattern) text none 0 0) [
  | none ↦ negsuc 0
  | some score ↦ sub_ℕ score (length text - length (p ∷ pattern))
]

-- A match that is kept has a score of at least 0.
pub record FinderMatch : Type 0 where
  pub index : ℕ
  pub score : ℕ

-- `match_compare(a, b) < 0`
unfoldable pub match_before : FinderMatch → FinderMatch → Bool
match_before a b = if a.score == b.score then ltb a.index b.index else ltb b.score a.score

-- The scoring loop of `finder_update_matches`, from the file `i` on.
unfoldable pub score_files : List ℕ → List (List ℕ) → ℕ → List FinderMatch
unfolding fuzzy_score
score_files query [] i = []
score_files query (path ∷ files) i =
    let rest = score_files query files (suc i) in
    elim (fuzzy_score query path) [
      | pos score ↦ record { index = i; score = score } ∷ rest
      | negsuc n ↦ rest
    ]

-- `qsort` by `match_compare`, which tells any two matches of different files apart.
unfoldable pub insert_match : FinderMatch → List FinderMatch → List FinderMatch
insert_match m [] = m ∷ []
insert_match m (n ∷ rest) =
    let later = n ∷ insert_match m rest in if match_before m n then m ∷ n ∷ rest else later

unfoldable pub sort_matches : List FinderMatch → List FinderMatch
unfolding insert_match
sort_matches [] = []
sort_matches (m ∷ rest) = insert_match m (sort_matches rest)

-- The indices that `finder_update_matches` leaves in `finder.matches`.
unfoldable pub matching_files : List ℕ → List (List ℕ) → List ℕ
unfolding sort_matches score_files
matching_files query files =
    map (λ m. FinderMatch.index m) (sort_matches (score_files query files 0))
