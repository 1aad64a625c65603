-- ===== src/Render/Buffered.antt =====
-- The text that src/render.c hands to the parser is the text of the buffer.
use ved.Common.{
  append-nil, ℕ, ◌≡◌, refl, sym, ap, List, [], ◌∷◌, ◌++◌, arith, length, length-append,
}
use ved.Contents.{text}
use ved.Render.Highlight.{text_total, build_buffer_text}

-- `build_buffer_text` gives the lines joined by newlines, and has allocated room for as many bytes
-- as it copies.
build_buffer_text-eq :
    (lines : List (List ℕ))
    → (build_buffer_text lines ≡ text lines) × (length (build_buffer_text lines) ≡ text_total lines)
unfolding build_buffer_text text_total text
build_buffer_text-eq [] = (refl, refl)
build_buffer_text-eq (line ∷ []) = (sym (append-nil line), refl)
build_buffer_text-eq (line ∷ next ∷ lines) =
    let (e, n) = build_buffer_text-eq (next ∷ lines) in
    (
      ap (λ t. line ++ 10 ∷ t) e,
      omega (arith, n, length-append {0} line (10 ∷ build_buffer_text (next ∷ lines))),
    )
