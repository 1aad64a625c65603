-- ===== src/Buffer/CleanFile.antt =====
-- The lines that `buffer_load_file` of src/buffer.c makes of a file are C strings without newlines.
use ved.Common.{
  ℕ, ◌<◌, ◌≡◌, ◌≢◌, refl, Option, none, some, List, [], ◌∷◌, ◌++◌, arith, ◌==◌, ◌||◌, if_cases,
  Bool-cases, inl, inr, if◌then◌else◌,
}
use ved.Common.All.{All, All-append}
use ved.Text.{c_string, getlines}
use ved.Os.{Os}
use ved.Buffer.{Buffer, append_line, append_lines, trim_newline, load_file, clear}
use ved.Buffer.Clean.{CleanLine, CleanLines}

-- What a file gives.
abbrev pub FileByte : ℕ → Type 0
FileByte c = c < 256

abbrev Unbroken : ℕ → Type 0
Unbroken c = (c ≢ 10) × (c < 256)

-- A line of `getline`: bytes that are no newline, and a newline at its end at most.
abbrev IsRaw : List ℕ → Type 0
IsRaw [] = Unit
IsRaw (c ∷ []) = c < 256
IsRaw (c ∷ d ∷ rest) = (c ≢ 10) × (c < 256) × IsRaw (d ∷ rest)

IsRaw-cons : (c : ℕ) (line : List ℕ) → c ≢ 10 → c < 256 → IsRaw line → IsRaw (c ∷ line)
IsRaw-cons c [] n p h = p
IsRaw-cons c (d ∷ line) n p h = (n, p, h)

getlines-IsRaw : (contents : List ℕ) → All FileByte contents → All IsRaw (getlines contents)
unfolding getlines
getlines-IsRaw [] h = tt
getlines-IsRaw (c ∷ contents) (p, h) =
    let rest = getlines-IsRaw contents h in
    elim (Bool-cases (c == 10)) [
      | inl e ↦ rw e (p, rest)
      | inr e ↦ let n : c ≢ 10 = ground arith in rw e (first n (getlines contents) rest)
    ]
  where
    first :
        c ≢ 10
        → (lines : List (List ℕ)) → All IsRaw lines
        → All IsRaw (elim lines [ [] ↦ (c ∷ []) ∷ [] | l ∷ ls ↦ (c ∷ l) ∷ ls ])
    first n [] r = (p, tt)
    first n (l ∷ ls) (q, r) = (IsRaw-cons c l n p q, r)

trim_newline-Unbroken : (line : List ℕ) → IsRaw line → All Unbroken (trim_newline line)
unfolding trim_newline
trim_newline-Unbroken [] h = tt
trim_newline-Unbroken (c ∷ []) h = elim (Bool-cases (c == 10 || c == 13)) [
  | inl e ↦ rw e tt
  | inr e ↦ rw e (ground arith, tt)
]
trim_newline-Unbroken (c ∷ d ∷ line) (n, p, h) =
    kept (trim_newline (d ∷ line)) (trim_newline-Unbroken (d ∷ line) h)
  where
    kept :
        (rest : List ℕ)
        → All Unbroken rest
        → All Unbroken
            (elim rest [ [] ↦ if c == 10 || c == 13 then [] else c ∷ [] | y ∷ ys ↦ c ∷ y ∷ ys ])
    kept [] r = if_cases (All Unbroken) (c == 10 || c == 13) (λ _. tt) (λ _. ((n, p), tt))
    kept (y ∷ ys) r = ((n, p), r)

c_string-CleanLine : (line : List ℕ) → All Unbroken line → CleanLine (c_string line)
unfolding c_string CleanLine
c_string-CleanLine [] h = tt
c_string-CleanLine (c ∷ line) ((n, p), h) = elim (Bool-cases (c == 0)) [
  | inl e ↦ rw e tt
  | inr e ↦ rw e ((ground arith, n, p), c_string-CleanLine line h)
]

one_more-CleanLines :
    (lines : List (List ℕ)) (line : List ℕ)
    → CleanLines lines
    → CleanLine line
    → CleanLines (lines ++ line ∷ [])
unfolding CleanLines
one_more-CleanLines lines line h p = All-append CleanLine lines (line ∷ []) h (p, tt)

append_lines-CleanLines :
    (raws : List (List ℕ)) (b : Buffer)
    → CleanLines b.lines
    → All IsRaw raws
    → CleanLines (append_lines b raws).lines
unfolding append_lines append_line
append_lines-CleanLines [] b h r = h
append_lines-CleanLines (raw ∷ raws) b h (q, r) =
    let line = c_string (trim_newline raw) in
    append_lines-CleanLines raws (append_line b (trim_newline raw))
      (one_more-CleanLines b.lines line h
        (c_string-CleanLine (trim_newline raw) (trim_newline-Unbroken raw q)))
      r

-- Every file holds bytes.
abbrev pub HoldsBytes : Os → Type 0
HoldsBytes os = (path contents : List ℕ) → os.fopen path ≡ some contents → All FileByte contents

no_lines : CleanLines []
unfolding CleanLines
no_lines = tt

-- What `buffer_load_file` makes of the contents.
from_contents-CleanLines :
    (os : Os) (b : Buffer) (path contents : List ℕ)
    → os.fopen path ≡ some contents
    → All FileByte contents
    → CleanLines (load_file os b path).lines
unfolding load_file clear append_line
from_contents-CleanLines os b path contents e h =
    let loaded = append_lines (record (clear b) { lines = [] }) (getlines contents) in
    let clean : CleanLines loaded.lines =
      append_lines-CleanLines (getlines contents) (record (clear b) { lines = [] }) no_lines
        (getlines-IsRaw contents h) in
    let blank : CleanLines (loaded.lines ++ c_string [] ∷ []) =
      one_more-CleanLines loaded.lines (c_string []) clean (c_string-CleanLine [] tt) in
    ground (arith, e, clean, blank)

unread-CleanLines :
    (os : Os) (b : Buffer) (path : List ℕ)
    → os.fopen path ≡ none
    → CleanLines b.lines
    → CleanLines (load_file os b path).lines
unfolding load_file
unread-CleanLines os b path e h = ground arith

pub load_file-CleanLines :
    (os : Os) (b : Buffer) (path : List ℕ)
    → HoldsBytes os
    → CleanLines b.lines
    → CleanLines (load_file os b path).lines
load_file-CleanLines os b path bytes h = by_file (os.fopen path) refl
  where
    by_file :
        (file : Option (List ℕ)) → os.fopen path ≡ file → CleanLines (load_file os b path).lines
    by_file none e = unread-CleanLines os b path e h
    by_file (some contents) e =
        from_contents-CleanLines os b path contents e (bytes path contents e)
