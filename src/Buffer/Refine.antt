-- ===== src/Buffer/Refine.antt =====
-- The editing operations of src/buffer.c against the one text of the buffer (Contents): each
-- cuts the text at positions and puts the pieces together again.
use ved.Common.{
  ℕ, ◌≤◌, ◌<◌, ◌≡◌, List, [], ◌∷◌, ◌++◌, ◌⊎◌, inl, inr, arith, length, set, take, drop, take-clamp,
  drop-clamp, lt→leb_false, lt_or_le, leb→le, set_same, take-append-drop_same, true, false,
  ne→==_false, ==_refl, lt→ltb, le→ltb_false, if◌then◌else◌, Bool-cases, leb,
}
use ved.Contents.{text, before, after, text-splice, text-split_row, text-remove_rows}
use ved.Buffer.{
  Buffer, line_count, line_at, line_length, clamp, insert_char, insert_newline, delete_range,
  delete_ordered, delete_region,
}

pub line_length-eq :
    (b : Buffer) (row : ℕ) → row < line_count b → line_length b row ≡ length (line_at b row)
unfolding line_length
line_length-eq b row h = rw (lt→leb_false (line_count b) row h)

-- Typing a byte on a line of the buffer puts it into the text at the cursor; a column past the end
-- counts as the end.
text-insert_char :
    (b : Buffer) (row col ch : ℕ)
    → row < line_count b
    → text (insert_char b row col ch).lines ≡ before b.lines row col ++ ch ∷ after b.lines row col
unfolding insert_char
text-insert_char b row col ch h =
    rw (lt→leb_false (line_count b) row h, line_length-eq b row h, take-clamp, drop-clamp)
      (text-splice b.lines row col col (ch ∷ []) h)

-- A new line on a line of the buffer puts a newline into the text at the cursor; a column past the
-- end counts as the end.
text-insert_newline :
    (b : Buffer) (row col : ℕ)
    → row < line_count b
    → text (insert_newline b row col).lines ≡ before b.lines row col ++ 10 ∷ after b.lines row col
unfolding insert_newline
text-insert_newline b row col h =
    rw (lt→leb_false (line_count b) row h, line_length-eq b row h, take-clamp, drop-clamp)
      (text-split_row b.lines row col h)

-- Deleting a range of a line of the buffer, its start not behind its end, takes out the text
-- between the two columns; a column past the end counts as the end.
pub text-delete_range :
    (b : Buffer) (row start end : ℕ)
    → row < line_count b
    → start ≤ end
    → text (delete_range b row start end).lines ≡ before b.lines row start ++ after b.lines row end
unfolding delete_range
text-delete_range b row start end h k =
    rw (lt→leb_false (line_count b) row h, line_length-eq b row h, take-clamp, drop-clamp)
      (cut (Bool-cases (leb e s)))
  where
    line : List ℕ
    line = line_at b row

    s : ℕ
    s = clamp (length line) start

    e : ℕ
    e = clamp (length line) end

    spliced :
        text (set b.lines row (take start line ++ drop end line))
        ≡ before b.lines row start ++ after b.lines row end
    spliced = text-splice b.lines row start end [] h

    cut :
        ((leb e s ≡ true) ⊎ (leb e s ≡ false))
        → text
            (if leb e s
              then b
              else record b { lines = set b.lines row (take start line ++ drop end line) }).lines
          ≡ before b.lines row start ++ after b.lines row end
    cut (inr p) = rw p spliced
    cut (inl p) =
        rw p (rw (take-append-drop_same start end line k (leb→le e s p), set_same) at spliced)

text-delete_ordered :
    (b : Buffer) (r c s d : ℕ)
    → r < s
    → s < line_count b
    → text (delete_ordered b r c s d).lines ≡ before b.lines r c ++ after b.lines s d
unfolding delete_ordered
text-delete_ordered b r c s d h k =
    rw
      (
        ne→==_false r s (omega arith),
        line_length-eq b r (omega arith),
        line_length-eq b s k,
        take-clamp,
        drop-clamp,
      )
      (text-remove_rows b.lines r c s d h k)

text-delete_in_row :
    (b : Buffer) (r c d : ℕ)
    → r < line_count b
    → c ≤ d
    → text (delete_ordered b r c r d).lines ≡ before b.lines r c ++ after b.lines r d
text-delete_in_row b r c d h p =
    unfold delete_ordered in rw (==_refl r) (text-delete_range b r c d h p)

-- Both calls of `buffer_delete_region` for two positions on one line.
pub delete_region-in_row :
    (b : Buffer) (r c d : ℕ)
    → r < line_count b
    → c ≤ d
    → (delete_region b r c r d ≡ delete_ordered b r c r d)
      × (delete_region b r d r c ≡ delete_ordered b r c r d)
unfolding delete_region
delete_region-in_row b r c d h p = (
  rw (
    lt→leb_false (line_count b) r h,
    le→ltb_false r r (omega arith),
    ==_refl r,
    le→ltb_false d c p,
  ),
  rw (lt→leb_false (line_count b) r h, le→ltb_false r r (omega arith), ==_refl r)
      (elim (lt_or_le c d) [
        | inl q ↦ rw (lt→ltb c d q)
        | inr q ↦ let e : d ≡ c = omega arith in rw (e, le→ltb_false c c (omega arith))
      ]),
)

-- Both calls for two positions on different lines.
pub delete_region-rows :
    (b : Buffer) (r c s d : ℕ)
    → s < line_count b
    → r < s
    → (delete_region b r c s d ≡ delete_ordered b r c s d)
      × (delete_region b s d r c ≡ delete_ordered b r c s d)
unfolding delete_region
delete_region-rows b r c s d h p = (
  rw (
    lt→leb_false (line_count b) r (omega arith),
    lt→leb_false (line_count b) s h,
    le→ltb_false s r (omega arith),
    ne→==_false r s (omega arith),
  ),
  rw (lt→leb_false (line_count b) r (omega arith), lt→leb_false (line_count b) s h, lt→ltb r s p),
)

-- For two positions of which the second is on a line of the buffer and the first is not behind it,
-- `buffer_delete_region` leaves what stands before the first and what stands from the second on,
-- in whichever order it is given them.
pub text-delete_region :
    (b : Buffer) (r c s d : ℕ)
    → s < line_count b
    → (r < s) ⊎ ((r ≡ s) × (c ≤ d))
    → (text (delete_region b r c s d).lines ≡ before b.lines r c ++ after b.lines s d)
      × (text (delete_region b s d r c).lines ≡ before b.lines r c ++ after b.lines s d)
text-delete_region b r c s d h (inl p) =
    let (forth, back) = delete_region-rows b r c s d h p in
    let ordered = text-delete_ordered b r c s d p h in (rw forth ordered, rw back ordered)
text-delete_region b r c s d h (inr (e, p)) =
    let h' : r < line_count b = omega arith in
    let (forth, back) = delete_region-in_row b r c d h' p in
    let ordered = text-delete_in_row b r c d h' p in rw (← e) (rw forth ordered, rw back ordered)
