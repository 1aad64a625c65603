-- ===== src/Terminal/Progress.antt =====
-- What `write_all` of src/render.c and src/input.c has written.
use ved.Common.{
  ℕ, zero, suc, ◌≤◌, ◌≡◌, refl, ap, ◌∙◌, true, List, [], ◌∷◌, ◌++◌, append_assoc, arith, length,
  take, drop, take-append-drop, length-drop,
}
use ved.Terminal.{WriteResult, wrote, interrupted, would_block, failed, write_all}

-- No call fails or returns 0.
abbrev pub NoFailure : List WriteResult → Type 0
NoFailure [] = Unit
NoFailure (wrote zero ∷ results) = ⊥
NoFailure (wrote (suc n) ∷ results) = NoFailure results
NoFailure (interrupted ∷ results) = NoFailure results
NoFailure (would_block ∷ results) = NoFailure results
NoFailure (failed ∷ results) = ⊥

-- The number of calls that write something.
abbrev pub writes : List WriteResult → ℕ
writes [] = 0
writes (wrote zero ∷ results) = writes results
writes (wrote (suc n) ∷ results) = suc (writes results)
writes (interrupted ∷ results) = writes results
writes (would_block ∷ results) = writes results
writes (failed ∷ results) = writes results

-- Where no call fails, however few bytes each writes and however often it is interrupted or would
-- block, `write_all` has written all bytes, in order, once as many calls as there are bytes have
-- written something, and it returns.
pub write_all-all :
    (bytes : List ℕ) (results : List WriteResult)
    → NoFailure results
    → length bytes ≤ writes results
    → write_all bytes results ≡ (bytes, true)
unfolding write_all
write_all-all [] results v h = refl
write_all-all (c ∷ rest) [] v h = elim h [ ]
write_all-all (c ∷ rest) (wrote zero ∷ results) v h = absurd v
write_all-all (c ∷ rest) (wrote (suc n) ∷ results) v h = rw (
  write_all-all (drop n rest) results v (omega (arith, length-drop {0} n rest)),
  take-append-drop n rest,
)
write_all-all (c ∷ rest) (interrupted ∷ results) v h = write_all-all (c ∷ rest) results v h
write_all-all (c ∷ rest) (would_block ∷ results) v h = write_all-all (c ∷ rest) results v h
write_all-all (c ∷ rest) (failed ∷ results) v h = absurd v

-- Whatever the calls return, what `write_all` has written is the first part of the bytes.
write_all-prefix :
    (bytes : List ℕ) (results : List WriteResult)
    → (rest : List ℕ) × ((write_all bytes results).0 ++ rest ≡ bytes)
unfolding write_all
write_all-prefix [] results = ([], refl)
write_all-prefix (c ∷ rest) [] = (c ∷ rest, refl)
write_all-prefix (c ∷ rest) (wrote zero ∷ results) = (c ∷ rest, refl)
write_all-prefix (c ∷ rest) (wrote (suc n) ∷ results) =
    let (left, e) = write_all-prefix (drop n rest) results in
    (
      left,
      ap (c ∷◌) (
          append_assoc (take n rest) (write_all (drop n rest) results).0 left
          ∙ ap (take n rest ++◌) e
          ∙ take-append-drop n rest),
    )
write_all-prefix (c ∷ rest) (interrupted ∷ results) = write_all-prefix (c ∷ rest) results
write_all-prefix (c ∷ rest) (would_block ∷ results) = write_all-prefix (c ∷ rest) results
write_all-prefix (c ∷ rest) (failed ∷ results) = (c ∷ rest, refl)
