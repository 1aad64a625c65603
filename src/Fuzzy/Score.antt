-- ===== src/Fuzzy/Score.antt =====
-- Which paths the fuzzy matching of src/finder.c finds.
use ved.Common.{
  ℕ, suc, ◌+◌, ◌≡◌, ◌↔◌, ◌≢◌, refl, sym, ◌∙◌, Option, none, some, List, [], ◌∷◌, arith, if_cases,
  ◌==◌, ==→eq, get_elem?, map,
}
use ved.Common.Int.{ℤ, pos, negsuc}
use ved.Text.{tolower}
use ved.Fuzzy.{
  FinderMatch, fuzzy_from, match_bonus, fuzzy_score, score_files, insert_match, sort_matches,
  match_before, matching_files,
}

-- The bytes of a pattern stand in a text in their order, upper and lower case alike.
pub data IsSubsequence : List ℕ → List ℕ → Type 0 where
  done : (text : List ℕ) → IsSubsequence [] text
  hit :
      (p t : ℕ) (pattern text : List ℕ)
      → tolower p ≡ tolower t
      → IsSubsequence pattern text
      → IsSubsequence (p ∷ pattern) (t ∷ text)
  miss :
      (t : ℕ) (pattern text : List ℕ)
      → IsSubsequence pattern text
      → IsSubsequence pattern (t ∷ text)

IsSubsequence-tail :
    (p : ℕ) (pattern text : List ℕ) → IsSubsequence (p ∷ pattern) text → IsSubsequence pattern text
IsSubsequence-tail p pattern _ (hit _ t _ text e s) = miss t pattern text s
IsSubsequence-tail p pattern _ (miss t _ text s) =
    miss t pattern text (IsSubsequence-tail p pattern text s)

-- A first byte of the text that the pattern's first byte meets may be taken.
IsSubsequence-take :
    (p t : ℕ) (pattern text : List ℕ)
    → IsSubsequence (p ∷ pattern) (t ∷ text)
    → IsSubsequence pattern text
IsSubsequence-take p t pattern text (hit _ _ _ _ e s) = s
IsSubsequence-take p t pattern text (miss _ _ _ s) = IsSubsequence-tail p pattern text s

IsSubsequence-skip :
    (p t : ℕ) (pattern text : List ℕ)
    → tolower p ≢ tolower t
    → IsSubsequence (p ∷ pattern) (t ∷ text)
    → IsSubsequence (p ∷ pattern) text
IsSubsequence-skip p t pattern text n (hit _ _ _ _ e s) = absurd (n e)
IsSubsequence-skip p t pattern text n (miss _ _ _ s) = s

fuzzy_from_sound :
    (pattern text : List ℕ) (prev : Option ℕ) (streak score : ℕ)
    → fuzzy_from pattern text prev streak score ≢ none
    → IsSubsequence pattern text
unfolding fuzzy_from
fuzzy_from_sound [] text prev streak score h = done text
fuzzy_from_sound (p ∷ pattern) [] prev streak score h = absurd (h refl)
fuzzy_from_sound (p ∷ pattern) (t ∷ text) prev streak score h =
    if_cases (λ r. r ≢ none → IsSubsequence (p ∷ pattern) (t ∷ text)) (tolower p == tolower t)
      (λ e g.
        hit p t pattern text (==→eq (tolower p) (tolower t) e)
          (fuzzy_from_sound pattern text (some t) (suc streak) (score + match_bonus streak prev) g))
      (λ e g. miss t (p ∷ pattern) text (fuzzy_from_sound (p ∷ pattern) text (some t) 0 score g)) h

fuzzy_from_complete :
    (pattern text : List ℕ) (prev : Option ℕ) (streak score : ℕ)
    → IsSubsequence pattern text
    → fuzzy_from pattern text prev streak score ≢ none
unfolding fuzzy_from
fuzzy_from_complete [] text prev streak score s = λ e. cc
fuzzy_from_complete (p ∷ pattern) [] prev streak score s = elim s [ ]
fuzzy_from_complete (p ∷ pattern) (t ∷ text) prev streak score s =
    if_cases (λ r. r ≢ none) (tolower p == tolower t)
      (λ e.
        fuzzy_from_complete pattern text (some t) (suc streak) (score + match_bonus streak prev)
          (IsSubsequence-take p t pattern text s))
      (λ e.
        fuzzy_from_complete (p ∷ pattern) text (some t) 0 score
          (IsSubsequence-skip p t pattern text (λ q. ground arith) s))

-- The loop of `fuzzy_score` finds the pattern exactly where its bytes stand in the text in their
-- order, upper and lower case alike.
pub fuzzy_from-IsSubsequence :
    (pattern text : List ℕ) → (fuzzy_from pattern text none 0 0 ≢ none) ↔ IsSubsequence pattern text
fuzzy_from-IsSubsequence pattern text =
    (fuzzy_from_sound pattern text none 0 0, fuzzy_from_complete pattern text none 0 0)

negsuc≢pos : (m n : ℕ) → negsuc m ≢ pos n
negsuc≢pos m n e = cc

fuzzy_score-found :
    (query path : List ℕ) (n : ℕ) → fuzzy_score query path ≡ pos n → IsSubsequence query path
unfolding fuzzy_score
fuzzy_score-found [] path n e = done path
fuzzy_score-found (p ∷ query) path n e =
    fuzzy_from_sound (p ∷ query) path none 0 0 (λ lost. negsuc≢pos 0 n (sym (lost_score lost) ∙ e))
  where
    lost_score :
        fuzzy_from (p ∷ query) path none 0 0 ≡ none → fuzzy_score (p ∷ query) path ≡ negsuc 0
    lost_score lost = unfold fuzzy_score in rw (fuzzy_score, lost) refl

-- A match selects a file of which the query is a subsequence.
abbrev pub IsHit : List ℕ → List (List ℕ) → ℕ → Type 0
IsHit query files i = (path : List ℕ) × (get_elem? files i ≡ some path) × IsSubsequence query path

-- Every element of a list has a property.
unfoldable pub All : (ℕ → Type 0) → List ℕ → Type 0
All P [] = Unit
All P (i ∷ rest) = P i × All P rest

abbrev indices : List FinderMatch → List ℕ
indices list = map (λ m. FinderMatch.index m) list

insert_match-All :
    (P : ℕ → Type 0) (m : FinderMatch) (rest : List FinderMatch)
    → P m.index
    → All P (indices rest)
    → All P (indices (insert_match m rest))
unfolding insert_match All
insert_match-All P m [] h a = (h, a)
insert_match-All P m (n ∷ rest) h (g, a) =
    if_cases (λ l. All P (indices l)) (match_before m n) (λ _. (h, (g, a)))
      (λ _. (g, insert_match-All P m rest h a))

sort_matches-All :
    (P : ℕ → Type 0) (list : List FinderMatch)
    → All P (indices list)
    → All P (indices (sort_matches list))
unfolding sort_matches All
sort_matches-All P [] a = a
sort_matches-All P (m ∷ rest) (h, a) =
    insert_match-All P m (sort_matches rest) h (sort_matches-All P rest a)

keep_match :
    (P : ℕ → Type 0) (i : ℕ) (score : ℤ) (rest : List FinderMatch)
    → ((n : ℕ) → score ≡ pos n → P i)
    → All P (indices rest)
    → All P
        (indices (elim score [ pos n ↦ record { index = i; score = n } ∷ rest | negsuc n ↦ rest ]))
unfolding All
keep_match P i (pos n) rest h a = (h n refl, a)
keep_match P i (negsuc n) rest h a = a

score_files-All :
    (P : ℕ → Type 0) (query : List ℕ) (files : List (List ℕ)) (i : ℕ)
    → ((k : ℕ) (path : List ℕ)
        → get_elem? files k ≡ some path
        → IsSubsequence query path
        → P (i + k))
    → All P (indices (score_files query files i))
unfolding score_files All
score_files-All P query [] i h = tt
score_files-All P query (path ∷ files) i h =
    keep_match P i (fuzzy_score query path) (score_files query files (suc i))
      (λ n e.
        let z : i + 0 ≡ i = omega arith in
        rw z at (h 0 path refl (fuzzy_score-found query path n e)))
      (score_files-All P query files (suc i)
        (λ k p e s. let z : i + suc k ≡ suc i + k = omega arith in rw z at (h (suc k) p e s)))

-- Every entry of the list of matches is the index of a file of the project of which the query is a
-- subsequence, upper and lower case alike.
matching_files-IsHit :
    (query : List ℕ) (files : List (List ℕ)) → All (IsHit query files) (matching_files query files)
unfolding matching_files
matching_files-IsHit query files =
    sort_matches-All (IsHit query files) (score_files query files 0) (
      score_files-All (IsHit query files) query files 0
        (λ k path e s. let z : 0 + k ≡ k = omega arith in (path, rw z e, s)))
