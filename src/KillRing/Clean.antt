-- ===== src/KillRing/Clean.antt =====
-- The kill ring of src/input.c holds C strings.
use ved.Common.{
  ℕ, ◌≢◌, ◌<◌, Bool, ◌||◌, not, Option, none, some, List, [], ◌∷◌, ◌++◌, arith, ◌==◌, if_cases,
}
use ved.Common.All.{All, All-append, All-set, get_or-All}
use ved.KillRing.{KillRing, empty, current, next_index, open_entry, extend_entry, kill_set, rotate}

-- A byte of a C string.
abbrev pub StringByte : ℕ → Type 0
StringByte c = (c ≢ 0) × (c < 256)

unfoldable pub CleanText : List ℕ → Type 0
CleanText text = All StringByte text

abbrev pub CleanEntry : Option (List ℕ) → Type 0
CleanEntry none = Unit
CleanEntry (some text) = CleanText text

unfoldable pub CleanRing : KillRing → Type 0
CleanRing k = All CleanEntry k.entries

pub append-CleanText : (xs ys : List ℕ) → CleanText xs → CleanText ys → CleanText (xs ++ ys)
unfolding CleanText
append-CleanText = All-append StringByte

pub current-CleanEntry : (k : KillRing) → CleanRing k → CleanEntry (current k)
unfolding CleanRing
current-CleanEntry k h = get_or-All CleanEntry k.entries k.index none tt h

open_entry-CleanRing : (k : KillRing) → CleanRing k → CleanRing (open_entry k)
unfolding CleanRing open_entry
open_entry-CleanRing k h = All-set CleanEntry k.entries (next_index k) none tt h

extend_entry-CleanRing :
    (k : KillRing) (more : List ℕ) → CleanText more → CleanRing k → CleanRing (extend_entry k more)
unfolding CleanRing extend_entry
extend_entry-CleanRing k more p h =
    All-set CleanEntry k.entries k.index _
      (behind (current k) (unfold CleanRing in current-CleanEntry k h)) h
  where
    behind :
        (old : Option (List ℕ))
        → CleanEntry old
        → CleanText ((elim old [ none ↦ [] | some text ↦ text ]) ++ more)
    behind none q = p
    behind (some text) q = append-CleanText text more q p

-- A kill of a C string.
pub kill_set-CleanRing :
    (k : KillRing) (text : List ℕ) (append : Bool)
    → CleanText text
    → CleanRing k
    → CleanRing (kill_set k text append)
unfolding kill_set
kill_set-CleanRing k [] append p h = h
kill_set-CleanRing k (c ∷ more) append p h =
    extend_entry-CleanRing _ (c ∷ more) p
      (if_cases CleanRing (not append || k.len == 0) (λ _. open_entry-CleanRing k h) (λ _. h))

pub rotate-CleanRing : (k : KillRing) → CleanRing k → CleanRing (rotate k)
unfolding CleanRing rotate
rotate-CleanRing k h = h

pub empty-CleanRing : CleanRing empty
unfolding CleanRing empty
empty-CleanRing = omega arith
