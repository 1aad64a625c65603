-- ===== src/Render/Bar.antt =====
-- The width of the status bar that src/render.c draws.
use ved.Common.{
  lt_or_le, inl, inr, ◌⊎◌, ◌<◌, ℕ, zero, suc, ◌+◌, ◌-◌, ◌≤◌, ◌≡◌, refl, sym, ap, ◌∙◌, List, [], ◌∷◌,
  ◌++◌, append_assoc, append-nil, arith, ltb, if◌then◌else◌, length, take, drop, length-append,
  length-take, drop-append, take_all,
}
use ved.Output.Growth.{bytes-ab_append}
use ved.Output.{AppendBuf, ab_append, ab_append_repeat}
use ved.Render.{draw_bar}

blanks : ℕ → List ℕ
blanks zero = []
blanks (suc n) = 32 ∷ blanks n

length-blanks : (n : ℕ) → length (blanks n) ≡ n
unfolding blanks
length-blanks zero = refl
length-blanks (suc n) = ap suc (length-blanks n)

bytes-ab_append_repeat :
    (ab : AppendBuf) (n : ℕ) → (ab_append_repeat ab (32 ∷ []) n).bytes ≡ ab.bytes ++ blanks n
unfolding ab_append_repeat blanks
bytes-ab_append_repeat ab zero = sym (append-nil ab.bytes)
bytes-ab_append_repeat ab (suc n) =
    bytes-ab_append_repeat (ab_append ab (32 ∷ [])) n
    ∙ ap (λ b. b ++ blanks n) (bytes-ab_append ab (32 ∷ []))
    ∙ append_assoc ab.bytes (32 ∷ []) (blanks n)

-- The three parts of a bar.
parts : List ℕ → ℕ → List ℕ → List ℕ
parts l n r = (l ++ blanks n) ++ r

length-parts :
    (l r : List ℕ) (n cols : ℕ) → length l + n + length r ≡ cols → length (parts l n r) ≡ cols
unfolding parts
length-parts l r n cols h =
    omega (
      arith,
      h,
      length-append {0} (l ++ blanks n) r,
      length-append {0} l (blanks n),
      length-blanks n,
    )

drop-parts :
    (l r : List ℕ) (n cols : ℕ)
    → length l + n + length r ≡ cols
    → drop (cols - length r) (parts l n r) ≡ r
unfolding parts
drop-parts l r n cols h =
    let e : cols - length r ≡ length (l ++ blanks n) =
      omega (arith, h, length-append {0} l (blanks n), length-blanks n) in
    ap (λ k. drop k ((l ++ blanks n) ++ r)) e ∙ drop-append (l ++ blanks n) r

bytes-parts :
    (ab : AppendBuf) (l r : List ℕ) (n : ℕ)
    → (ab_append (ab_append_repeat (ab_append ab l) (32 ∷ []) n) r).bytes ≡ ab.bytes ++ parts l n r
unfolding parts
bytes-parts ab l r n =
    bytes-ab_append (ab_append_repeat (ab_append ab l) (32 ∷ []) n) r
    ∙ ap (λ b. b ++ r)
        (bytes-ab_append_repeat (ab_append ab l) n
          ∙ ap (λ b. b ++ blanks n) (bytes-ab_append ab l)
          ∙ append_assoc ab.bytes l (blanks n))
    ∙ append_assoc ab.bytes (l ++ blanks n) r

-- The numbers of the bytes that `draw_bar` takes of its two texts.
module _ (left right : List ℕ) (cols : ℕ) where
  right_len : ℕ
  right_len = if ltb cols (length right) then cols else length right

  left_len : ℕ
  left_len = if ltb (cols - right_len) (length left) then cols - right_len else length left

  bar : List ℕ
  unfolding parts
  bar = parts (take left_len left) (cols - right_len - left_len) (take right_len right)

  right-fits : length (take right_len right) ≡ right_len
  unfolding right_len
  right-fits = ground (arith, length-take right_len right)

  bar-fits :
      length (take left_len left) + (cols - right_len - left_len) + length (take right_len right)
      ≡ cols
  unfolding right_len left_len
  bar-fits = ground (arith, length-take left_len left, length-take right_len right)

  ends : length right ≤ cols → drop (cols - length right) bar ≡ right
  unfolding right_len bar
  ends h =
      let whole : take right_len right ≡ right = take_all right_len right (ground arith) in
      let n : length (take right_len right) ≡ length right = ap (λ xs. length xs) whole in
      ap (λ k. drop (cols - k) bar) (sym n)
      ∙ drop-parts (take left_len left) (take right_len right) (cols - right_len - left_len) cols
          bar-fits
      ∙ whole

  bar-ends : (cols < length right) ⊎ (drop (cols - length right) bar ≡ right)
  bar-ends = elim (lt_or_le cols (length right)) [ inl h ↦ inl h | inr h ↦ inr (ends h) ]

-- The status bar is as wide as the screen, whatever its two texts are, and ends with the whole of
-- the right one where the screen has room for it.
draw_bar-width :
    (ab : AppendBuf) (left right : List ℕ) (cols : ℕ)
    → (shown : List ℕ) × ((draw_bar ab left right cols).bytes ≡ ab.bytes ++ shown)
      × (length shown ≡ cols)
      × ((cols < length right) ⊎ (drop (cols - length right) shown ≡ right))
unfolding draw_bar right_len left_len bar
draw_bar-width ab left right cols = (
  bar left right cols,
  bytes-parts ab _ _ _,
  length-parts _ _ _ cols (bar-fits left right cols),
  bar-ends left right cols,
)
