-- ===== src/Text.antt =====
-- The string functions of the C library that the sources call, on the bytes before the terminator.
use Prim.Native.String.{String}
use Prim.Native.Char.{code}
use ved.Common.{
  ℕ, zero, suc, ◌+◌, ◌/◌, ◌%◌, ltb, Bool, true, false, ◌&&◌, ◌||◌, Option, none, some, List, [],
  ◌∷◌, leb, ◌==◌, if◌then◌else◌,
}

-- The bytes of an ASCII literal.
abbrev pub codes : String → List ℕ
codes String.[] = []
codes (String.◌∷◌ c s) = code c ∷ codes s

-- `strcmp(a, b) == 0`
unfoldable pub bytes_eq : List ℕ → List ℕ → Bool
bytes_eq [] [] = true
bytes_eq [] (y ∷ ys) = false
bytes_eq (x ∷ xs) [] = false
bytes_eq (x ∷ xs) (y ∷ ys) = x == y && bytes_eq xs ys

-- The bytes before the first NUL: what `strlen` and `strdup` see of a buffer.
unfoldable pub c_string : List ℕ → List ℕ
c_string [] = []
c_string (x ∷ xs) = if x == 0 then [] else x ∷ c_string xs

-- What stands behind the last `c`, where `strrchr` finds one.
unfoldable pub after_last : ℕ → List ℕ → Option (List ℕ)
after_last c [] = none
after_last c (x ∷ xs) = elim (after_last c xs) [
  | some t ↦ some t
  | none ↦ if x == c then some xs else none
]

-- What stands before the last `c`, where `strrchr` finds one.
unfoldable pub before_last : ℕ → List ℕ → Option (List ℕ)
before_last c [] = none
before_last c (x ∷ xs) = elim (before_last c xs) [
  | some t ↦ some (x ∷ t)
  | none ↦ if x == c then some [] else none
]

-- The lines that `getline` returns one by one, each with its newline.
unfoldable pub getlines : List ℕ → List (List ℕ)
getlines [] = []
getlines (x ∷ xs) =
    if x == 10
    then (x ∷ []) ∷ getlines xs
    else elim (getlines xs) [ [] ↦ (x ∷ []) ∷ [] | l ∷ ls ↦ (x ∷ l) ∷ ls ]

-- `isspace` and `tolower` in the C locale.
unfoldable pub isspace : ℕ → Bool
isspace ch = ch == 32 || (leb 9 ch && leb ch 13)

unfoldable pub tolower : ℕ → ℕ
tolower ch = if leb 65 ch && leb ch 90 then ch + 32 else ch

-- The digits that `%d` and `%zu` print of a number below 10 ^ `fuel`, before those of `more`.
unfoldable pub digits_before : ℕ → ℕ → List ℕ → List ℕ
digits_before zero n more = more
digits_before (suc fuel) n more =
    let here = (b'0' + n % 10) ∷ more in
    let rest = digits_before fuel (n / 10) here in if ltb n 10 then here else rest

-- A `size_t` has at most 20 digits.
unfoldable pub decimal : ℕ → List ℕ
unfolding digits_before
decimal n = digits_before 20 n []
