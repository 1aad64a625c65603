-- ===== src/Render/Runs.antt =====
-- The runs in which src/render.c draws a coloured line show its bytes, each in its colour.
use ved.Common.{
  ℕ, zero, suc, ◌+◌, ◌-◌, ◌≤◌, ◌<◌, ◌≡◌, ◌≢◌, refl, sym, ap, ap₂, ◌∙◌, true, false, Option, none,
  some, List, [], ◌∷◌, ◌++◌, append_assoc, append-nil, arith, ltb, ◌==◌, if◌then◌else◌, length,
  take, drop, get_or, get_or-drop, length-drop, replicate, min, lt→ltb, le→ltb_false,
}
use ved.Utf8.{byte_to_vis_col}
use ved.Output.{AppendBuf, ab_append, ab_append_expanding_tabs, reset}
use ved.Output.Growth.{bytes-ab_append}
use ved.Render.Highlight.{HighlightSpan}
use ved.Render.Line.{
  Cell, blank, paint_spans, same_color, slice, draw_run, draw_runs, render_line_with_spans,
}

-- There is no tab in the text.
abbrev pub Tabless : List ℕ → Type 0
Tabless [] = Unit
Tabless (c ∷ text) = (c ≢ 9) × Tabless text

Tabless-drop : (n : ℕ) (text : List ℕ) → Tabless text → Tabless (drop n text)
Tabless-drop zero text t = t
Tabless-drop (suc n) [] t = t
Tabless-drop (suc n) (c ∷ text) (h, t) = Tabless-drop n text t

Tabless-take : (n : ℕ) (text : List ℕ) → Tabless text → Tabless (take n text)
Tabless-take zero text t = tt
Tabless-take (suc n) [] t = t
Tabless-take (suc n) (c ∷ text) (h, t) = (h, Tabless-take n text t)

bytes-expanding :
    (ab : AppendBuf) (text : List ℕ) (col : ℕ)
    → Tabless text
    → (ab_append_expanding_tabs ab text col).bytes ≡ ab.bytes ++ text
unfolding ab_append_expanding_tabs
bytes-expanding ab [] col t = sym (append-nil ab.bytes)
bytes-expanding ab (c ∷ text) col (h, t) =
    let no_tab : (c == 9) ≡ false = ground arith in
    rw no_tab (
      bytes-expanding (ab_append ab (c ∷ [])) text (suc col) t
      ∙ ap (λ b. b ++ text) (bytes-ab_append ab (c ∷ []))
      ∙ append_assoc ab.bytes (c ∷ []) text)

-- The sequence that selects a colour.
abbrev pub color_bytes : Option (List ℕ) → List ℕ
color_bytes none = reset
color_bytes (some color) = color

-- The bytes of a line from `i` on, as many as `k`, one by one: each behind the sequence of its
-- colour, unless that is the colour of the byte before.
pub each_byte : ℕ → List ℕ → List Cell → ℕ → Option (List ℕ) → List ℕ
each_byte zero line cells i active = []
each_byte (suc k) line cells i active =
    let color = Cell.color (get_or cells i blank) in
    let same = each_byte k line cells (suc i) active in
    let fresh = each_byte k line cells (suc i) color in
    if same_color color active
    then get_or line i 0 ∷ same
    else color_bytes color ++ get_or line i 0 ∷ fresh

-- The whole line: the first byte always stands behind the sequence of its colour.
pub in_colors : ℕ → List ℕ → List Cell → ℕ → List ℕ
in_colors zero line cells i = []
in_colors (suc k) line cells i =
    let color = Cell.color (get_or cells i blank) in
    color_bytes color ++ get_or line i 0 ∷ each_byte k line cells (suc i) color

-- The sequence of a colour and a text without tabs.
bytes-colored :
    (ab : AppendBuf) (color text : List ℕ) (col : ℕ)
    → Tabless text
    → (ab_append_expanding_tabs (ab_append ab color) text col).bytes ≡ ab.bytes ++ (color ++ text)
bytes-colored ab color text col t =
    bytes-expanding (ab_append ab color) text col t
    ∙ ap (λ b. b ++ text) (bytes-ab_append ab color)
    ∙ append_assoc ab.bytes color text

bytes-draw_run :
    (ab : AppendBuf) (line : List ℕ) (from len : ℕ) (active : Option (List ℕ)) (col : ℕ)
    → Tabless line
    → (draw_run ab line from len active col).bytes
      ≡ ab.bytes ++ (color_bytes active ++ slice line from len)
unfolding draw_run
bytes-draw_run ab line from len none col t =
    bytes-colored ab reset (slice line from len) col
      (Tabless-take len (drop from line) (Tabless-drop from line t))
bytes-draw_run ab line from len (some color) col t =
    bytes-colored ab color (slice line from len) col
      (Tabless-take len (drop from line) (Tabless-drop from line t))

-- One byte more.
take-suc : (n : ℕ) (xs : List ℕ) → n < length xs → take (suc n) xs ≡ take n xs ++ get_or xs n 0 ∷ []
take-suc n [] h = absurd (omega arith)
take-suc zero (x ∷ xs) h = refl
take-suc (suc n) (x ∷ xs) h = ap (x ∷◌) (take-suc n xs (omega arith))

slice-suc :
    (line : List ℕ) (from i : ℕ)
    → from ≤ i
    → i < length line
    → slice line from (suc i - from) ≡ slice line from (i - from) ++ get_or line i 0 ∷ []
slice-suc line from i h p =
    let next : suc i - from ≡ suc (i - from) = omega arith in
    let at : from + (i - from) ≡ i = omega arith in
    ap (slice line from) next
    ∙ take-suc (i - from) (drop from line) (omega (arith, length-drop {0} from line))
    ∙ ap (λ c. slice line from (i - from) ++ c ∷ [])
        (get_or-drop line from (i - from) 0 ∙ ap (λ j. get_or line j 0) at)

slice_one :
    (line : List ℕ) (i : ℕ) → i < length line → slice line i (suc i - i) ≡ get_or line i 0 ∷ []
slice_one line i p =
    let none_before : i - i ≡ 0 = omega arith in
    slice-suc line i i (omega arith) p
    ∙ ap (λ n. slice line i n ++ get_or line i 0 ∷ []) none_before

module _ (line : List ℕ) (cells : List Cell) (t : Tabless line) where
  -- Behind the run that is not drawn yet, which is not empty.
  draw_runs-lem :
      (k : ℕ) (ab : AppendBuf) (i start : ℕ) (active : Option (List ℕ)) (col : ℕ)
      → start < i
      → i + k ≤ length line
      → (draw_runs k ab line cells i start active col).bytes
        ≡ ab.bytes
          ++ (color_bytes active
              ++ (slice line start (i - start) ++ each_byte k line cells i active))
  unfolding draw_runs each_byte same_color
  draw_runs-lem zero ab i start active col h p = rw (lt→ltb start i h) (
      bytes-draw_run ab line start (i - start) active col t
      ∙ ap (λ b. ab.bytes ++ (color_bytes active ++ b))
          (sym (append-nil (slice line start (i - start)))))
  draw_runs-lem (suc k) ab i start active col h p =
      let color = Cell.color (get_or cells i blank) in
      let x = get_or line i 0 in
      let run = slice line start (i - start) in
      let drawn = draw_run ab line start (i - start) active col in
      let more = each_byte k line cells (suc i) in
      rw (lt→ltb start i h)
        (elim (same_color color active)
          as (λ b.
            AppendBuf.bytes (
              if b
              then draw_runs k ab line cells (suc i) start active col
              else draw_runs k drawn line cells (suc i) i color
                  (col + byte_to_vis_col (drop start line) (i - start)))
            ≡ ab.bytes
              ++ (color_bytes active
                  ++ (run
                      ++ (if b then x ∷ more active else color_bytes color ++ x ∷ more color)))) [
                        | true ↦
                            draw_runs-lem k ab (suc i) start active col (omega arith) (omega arith)
                            ∙ ap (λ r. ab.bytes ++ (color_bytes active ++ (r ++ more active)))
                                (slice-suc line start i (omega arith) (omega arith))
                            ∙ ap (λ r. ab.bytes ++ (color_bytes active ++ r))
                                (append_assoc run (x ∷ []) (more active))
                        | false ↦
                            draw_runs-lem k drawn (suc i) i color
                              (col + byte_to_vis_col (drop start line) (i - start)) (omega arith)
                              (omega arith)
                            ∙ ap (λ r. drawn.bytes ++ (color_bytes color ++ (r ++ more color)))
                                (slice_one line i (omega arith))
                            ∙ ap (λ b. b ++ (color_bytes color ++ x ∷ more color))
                                (bytes-draw_run ab line start (i - start) active col t)
                            ∙ append_assoc ab.bytes (color_bytes active ++ run)
                                (color_bytes color ++ x ∷ more color)
                            ∙ ap (λ r. ab.bytes ++ r)
                                (append_assoc (color_bytes active) run
                                  (color_bytes color ++ x ∷ more color))
                      ])

  -- A run that has just begun.
  draw_runs-begun :
      (k : ℕ) (ab : AppendBuf) (i : ℕ) (color : Option (List ℕ)) (col : ℕ)
      → i + suc k ≤ length line
      → (draw_runs k ab line cells (suc i) i color col).bytes
        ≡ ab.bytes ++ (color_bytes color ++ get_or line i 0 ∷ each_byte k line cells (suc i) color)
  draw_runs-begun k ab i color col p =
      draw_runs-lem k ab (suc i) i color col (omega arith) (omega arith)
      ∙ ap (λ r. ab.bytes ++ (color_bytes color ++ (r ++ each_byte k line cells (suc i) color)))
          (slice_one line i (omega arith))

  -- The start of the loop: the first byte begins a run, whatever its colour is.
  draw_runs-in_colors :
      (k : ℕ) (ab : AppendBuf) (i col : ℕ)
      → i + k ≤ length line
      → (draw_runs k ab line cells i i none col).bytes ≡ ab.bytes ++ in_colors k line cells i
  unfolding draw_runs in_colors same_color
  draw_runs-in_colors zero ab i col p =
      rw (le→ltb_false i i (omega arith)) (sym (append-nil ab.bytes))
  draw_runs-in_colors (suc k) ab i col p =
      rw (le→ltb_false i i (omega arith))
        (elim (Cell.color (get_or cells i blank))
          as (λ color.
            AppendBuf.bytes (
              if same_color color none
              then draw_runs k ab line cells (suc i) i none col
              else draw_runs k ab line cells (suc i) i color col)
            ≡ ab.bytes
              ++ (color_bytes color ++ get_or line i 0 ∷ each_byte k line cells (suc i) color)) [
                | none ↦ draw_runs-begun k ab i none col p
                | some c ↦ draw_runs-begun k ab i (some c) col p
              ])

-- The colours of the bytes of a line under these spans.
abbrev pub colors_of : List ℕ → ℕ → List HighlightSpan → List Cell
colors_of line row spans = paint_spans row (length line) (replicate (length line) blank) spans

-- The output for a line without tabs: the bytes of the line that the window shows, each once and in
-- order, and before a byte the sequence of its colour where it is the first one or has not the
-- colour of the byte before; and the reset at the end. So the runs of the loop neither lose nor
-- repeat a byte, and draw each in the colour that the spans give it.
pub render_line_with_spans-in_colors :
    (ab : AppendBuf) (line : List ℕ) (row from visible : ℕ) (spans : List HighlightSpan)
    → Tabless line
    → let start = min from (length line) in
      let end = min (from + visible) (length line) in
      (render_line_with_spans ab line row from visible spans).bytes
      ≡ ab.bytes ++ (in_colors (end - start) line (colors_of line row spans) start ++ reset)
unfolding render_line_with_spans
render_line_with_spans-in_colors ab line row from visible spans t =
    let cells = colors_of line row spans in
    let at : ℕ = if ltb from (length line) then from else length line in
    let to : ℕ = if ltb (from + visible) (length line) then from + visible else length line in
    let drawn = draw_runs (to - at) ab line cells at at none (byte_to_vis_col line at) in
    let inside : at + (to - at) ≤ length line = ground arith in
    let at_min : at ≡ min from (length line) = ground arith in
    let to_min : to ≡ min (from + visible) (length line) = ground arith in
    bytes-ab_append drawn reset
    ∙ ap (λ b. b ++ reset)
        (draw_runs-in_colors line cells t (to - at) ab at (byte_to_vis_col line at) inside)
    ∙ append_assoc ab.bytes (in_colors (to - at) line cells at) reset
    ∙ ap₂ (λ s e. ab.bytes ++ (in_colors (e - s) line cells s ++ reset)) at_min to_min
