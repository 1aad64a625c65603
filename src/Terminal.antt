-- ===== src/Terminal.antt =====
-- `write_all` of src/render.c and src/input.c, which writes to the terminal.
pub mod Progress
use ved.Common.{ℕ, zero, suc, Bool, true, false, List, [], ◌∷◌, ◌++◌, take, drop}

-- What one call of `write` returns: a number of bytes, or -1 with `errno` EINTR, EAGAIN or another.
pub data WriteResult : Type 0 where
  wrote : ℕ → WriteResult
  interrupted would_block failed : WriteResult

-- The loop of `write_all` over the results of its calls of `write`: the bytes that go out, and
-- whether the loop ends. It waits for the next call's result where the list is at its end.
unfoldable pub write_all : List ℕ → List WriteResult → List ℕ × Bool
write_all [] results = ([], true)
write_all (c ∷ rest) [] = ([], false)
write_all (c ∷ rest) (wrote zero ∷ results) = ([], true)
write_all (c ∷ rest) (wrote (suc n) ∷ results) =
    let (sent, ended) = write_all (drop n rest) results in (c ∷ take n rest ++ sent, ended)
write_all (c ∷ rest) (interrupted ∷ results) = write_all (c ∷ rest) results
write_all (c ∷ rest) (would_block ∷ results) = write_all (c ∷ rest) results
write_all (c ∷ rest) (failed ∷ results) = ([], true)
