-- ===== src/Buffer/Saved.antt =====
-- `buffer_write_file` of src/buffer.c: what a file holds after it.
use ved.Common.{
  ℕ, if◌then◌else◌, ◌≡◌, refl, sym, ap, ◌∙◌, Bool, true, false, ◌&&◌, Option, none, some, List, [],
  ◌∷◌, ◌++◌, append-nil, append_assoc, arith, length, take, drop, take-append-drop, take_all,
  if_cases, ltb, ◌==◌, inl, inr, ==_refl, ◌⊎◌, ==→eq,
}
use mathlib.Core.Path.{subst}
use ved.Os.{Os}
use ved.Buffer.{Buffer, put, write_lines, write_file}

-- The text of a file: every line with its newline.
unfoldable pub file_text : List (List ℕ) → List ℕ
file_text [] = []
file_text (line ∷ rest) = line ++ 10 ∷ file_text rest

-- What was written is a first part of the bytes, and all of them where the writing succeeded.
abbrev pub IsPart : List ℕ → Bool × List ℕ → Type 0
IsPart whole (sent, got) = (rest : List ℕ) × (got ++ rest ≡ whole) × (sent ≡ true → got ≡ whole)

-- Writing that failed is a part of longer bytes too.
stopped :
    (whole more got : List ℕ) (sent : Bool)
    → IsPart whole (sent, got)
    → IsPart (whole ++ more) (false, got)
stopped whole more got sent (rest, e, all) =
    (rest ++ more, sym (append_assoc got rest more) ∙ ap (λ t. t ++ more) e, λ f. cc)

put-IsPart : (os : Os) (out chunk : List ℕ) → IsPart (out ++ chunk) (put os out chunk)
unfolding put
put-IsPart os out chunk = by_result (os.write out chunk)
  where
    by_result :
        (r : Option ℕ)
        → IsPart
            (out ++ chunk)
            (elim r [ none ↦ (false, out) | some n ↦ (n == length chunk, out ++ take n chunk) ])
    by_result none = (chunk, refl, λ e. cc)
    by_result (some n) = (
      drop n chunk,
      append_assoc out (take n chunk) (drop n chunk)
          ∙ ap (λ t. out ++ t) (take-append-drop n chunk),
      λ e.
          ap (λ t. out ++ t)
            (take_all n chunk (let same : n ≡ length chunk = ==→eq n _ e in omega arith)),
    )

whole_is :
    {whole other : List ℕ} {o : Bool × List ℕ} → whole ≡ other → IsPart whole o → IsPart other o
whole_is {o = o} e part = subst (λ w. IsPart w o) e part

-- The write of a line without its newline.
put_line : Os → List ℕ → List ℕ → Bool × List ℕ
put_line os out line = if ltb 0 (length line) then put os out line else (true, out)

put_line-IsPart : (os : Os) (out line : List ℕ) → IsPart (out ++ line) (put_line os out line)
unfolding put_line
put_line-IsPart os out [] = ([], ap (λ t. t) refl, λ e. sym (append-nil out))
put_line-IsPart os out (c ∷ line) =
    if_cases (IsPart (out ++ c ∷ line)) (ltb 0 (length (c ∷ line)))
      (λ _. put-IsPart os out (c ∷ line)) (λ f. absurd (ground arith))

-- `write_lines` puts a first part of the file's text behind what is there, and all of it where it
-- succeeds.
write_lines-IsPart :
    (os : Os) (out : List ℕ) (lines : List (List ℕ))
    → IsPart (out ++ file_text lines) (write_lines os out lines)
unfolding write_lines file_text put_line
write_lines-IsPart os out [] = ([], refl, λ e. sym (append-nil out))
write_lines-IsPart os out (line ∷ lines) =
    let first = put_line os out line in
    let second = put os first.1 (10 ∷ []) in
    let P = IsPart (out ++ (line ++ 10 ∷ file_text lines)) in
    if_cases P first.0
      (λ s.
        let moved : first.1 ++ 10 ∷ file_text lines ≡ out ++ (line ++ 10 ∷ file_text lines) =
          ap (λ t. t ++ 10 ∷ file_text lines) ((put_line-IsPart os out line).2 s)
          ∙ append_assoc out line (10 ∷ file_text lines) in
        let split : (first.1 ++ 10 ∷ []) ++ file_text lines
            ≡ out ++ (line ++ 10 ∷ file_text lines) =
          append_assoc first.1 (10 ∷ []) (file_text lines) ∙ moved in
        if_cases P second.0
          (λ e.
            whole_is
              (ap (λ t. t ++ file_text lines) ((put-IsPart os first.1 (10 ∷ [])).2 e) ∙ split)
              (write_lines-IsPart os second.1 lines))
          (λ e.
            whole_is split
              (stopped _ (file_text lines) second.1 second.0 (put-IsPart os first.1 (10 ∷ [])))))
      (λ s.
        whole_is (append_assoc out line (10 ∷ file_text lines))
          (stopped _ (10 ∷ file_text lines) first.1 first.0 (put_line-IsPart os out line)))

-- A file's contents, if it could be opened, are a first part of these bytes.
abbrev pub HoldsPart : List ℕ → Option (List ℕ) → Type 0
HoldsPart whole none = Unit
HoldsPart whole (some got) = (rest : List ℕ) × (got ++ rest ≡ whole)

-- Whatever the calls of `open`, `write` and `close` return: a file that could be opened holds a first
-- part of the lines of the buffer, each with its newline; and `buffer_write_file` reports a failure,
-- or the file was opened and holds them all.
pub write_file-contents :
    (os : Os) (b : Buffer) (path : List ℕ)
    → let (written, contents) = write_file os b path in
      HoldsPart (file_text b.lines) contents
      × ((written ≡ false) ⊎ (contents ≡ some (file_text b.lines)))
unfolding write_file
write_file-contents os b path =
    let whole = file_text b.lines in
    let (rest, e, all) = write_lines-IsPart os [] b.lines in
    if_cases
      (λ (o : Bool × Option (List ℕ)). HoldsPart whole o.1 × ((o.0 ≡ false) ⊎ (o.1 ≡ some whole)))
      (os.open_ok path) (λ _. ((rest, e), by_result (write_lines os [] b.lines).0 all))
      (λ _. (tt, inl refl))
  where
    by_result :
        (sent : Bool)
        → (sent ≡ true → (write_lines os [] b.lines).1 ≡ file_text b.lines)
        → ((sent && os.close_ok path) ≡ false)
          ⊎ (some (write_lines os [] b.lines).1 ≡ some (file_text b.lines))
    by_result true all = inr (ap some (all refl))
    by_result false all = inl refl

-- The calls that write a file succeed, and `write` takes all bytes.
pub record Writes (os : Os) (path : List ℕ) : Type 0 where
  pub opens : os.open_ok path ≡ true
  pub writes : (out chunk : List ℕ) → os.write out chunk ≡ some (length chunk)
  pub closes : os.close_ok path ≡ true

module _ (os : Os) (path : List ℕ) (w : Writes os path) where
  put-all : (out chunk : List ℕ) → (put os out chunk).0 ≡ true
  unfolding put
  put-all out chunk = rw (put, w.writes out chunk) (==_refl (length chunk))

  put_line-all : (out line : List ℕ) → (put_line os out line).0 ≡ true
  unfolding put_line
  put_line-all out line =
      if_cases (λ (o : Bool × List ℕ). o.0 ≡ true) (ltb 0 (length line)) (λ _. put-all out line)
        (λ _. refl)

  write_lines-all : (out : List ℕ) (lines : List (List ℕ)) → (write_lines os out lines).0 ≡ true
  unfolding write_lines put_line
  write_lines-all out [] = refl
  write_lines-all out (line ∷ lines) =
      let P : Bool × List ℕ → Type 0 = λ o. o.0 ≡ true in
      let out' = (put_line os out line).1 in
      if_cases P (put_line os out line).0
        (λ _.
          if_cases P (put os out' (10 ∷ [])).0
            (λ _. write_lines-all (put os out' (10 ∷ [])).1 lines)
            (λ f. sym f ∙ put-all out' (10 ∷ [])))
        (λ f. sym f ∙ put_line-all out line)

  pub write_file-all : (b : Buffer) → write_file os b path ≡ (true, some (file_text b.lines))
  unfolding write_file
  write_file-all b =
      rw (w.opens, w.closes, write_lines-all [] b.lines)
        (ap (λ t. (true, some t))
          ((write_lines-IsPart os [] b.lines).2 (write_lines-all [] b.lines)))
