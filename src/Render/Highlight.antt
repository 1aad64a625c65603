-- ===== src/Render/Highlight.antt =====
-- The text that src/render.c hands to the parser and the coloured spans that come back.
use ved.Common.{
  ℕ, zero, suc, ◌+◌, Bool, true, false, ◌&&◌, ◌||◌, Option, none, some, List, [], ◌∷◌, ◌++◌, ltb,
  leb, ◌==◌, if◌then◌else◌, length, get_or,
}
use ved.Text.{codes, bytes_eq}
use ved.Os.{Os, Capture}
use ved.Buffer.{Buffer, line_count, line_length}
use ved.Output.{esc}

-- `capture_color`, `none` for NULL. Equal literals are one pointer.
unfoldable pub capture_color : List ℕ → Option (List ℕ)
capture_color name =
    if bytes_eq name (codes "comment")
    then some (esc (codes "[37m"))
    else if bytes_eq name (codes "string")
    then some (esc (codes "[32m"))
    else if bytes_eq name (codes "number")
    then some (esc (codes "[33m"))
    else if bytes_eq name (codes "type")
    then some (esc (codes "[33m"))
    else if bytes_eq name (codes "keyword")
    then some (esc (codes "[35m"))
    else if bytes_eq name (codes "preproc")
    then some (esc (codes "[95m"))
    else if bytes_eq name (codes "function")
    then some (esc (codes "[34m"))
    else if bytes_eq name (codes "operator") || bytes_eq name (codes "delimiter")
    then some (esc (codes "[36m"))
    else none

unfoldable pub capture_priority : List ℕ → ℕ
capture_priority name =
    if bytes_eq name (codes "comment")
    then 6
    else if bytes_eq name (codes "string")
    then 5
    else if bytes_eq name (codes "number")
    then 4
    else if bytes_eq name (codes "function")
    then 4
    else if bytes_eq name (codes "type")
    then 3
    else if bytes_eq name (codes "keyword")
    then 2
    else if bytes_eq name (codes "preproc")
    then 1
    else 0

pub record HighlightSpan : Type 0 where
  pub start_row : ℕ
  pub start_col : ℕ
  pub end_row : ℕ
  pub end_col : ℕ
  pub color : List ℕ
  pub priority : ℕ

-- The `total` of `build_buffer_text`, for which it allocates, and the text that it copies.
unfoldable pub text_total : List (List ℕ) → ℕ
text_total [] = 0
text_total (line ∷ []) = length line
text_total (line ∷ next ∷ lines) = length line + 1 + text_total (next ∷ lines)

unfoldable pub build_buffer_text : List (List ℕ) → List ℕ
build_buffer_text [] = []
build_buffer_text (line ∷ []) = line
build_buffer_text (line ∷ next ∷ lines) = line ++ 10 ∷ build_buffer_text (next ∷ lines)

-- The loop of `build_line_offsets` from `row` on, a round for each row that is left.
unfoldable pub offsets_from : ℕ → Buffer → ℕ → ℕ → List ℕ
offsets_from zero b row offset = []
offsets_from (suc k) b row offset =
    let newline = if ltb (suc row) (line_count b) then 1 else 0 in
    offset ∷ offsets_from k b (suc row) (offset + line_length b row + newline)

unfoldable pub build_line_offsets : Buffer → ℕ → List ℕ
unfolding offsets_from
build_line_offsets b last_row = offsets_from (suc last_row) b 0 0

-- One round of the loop of `collect_highlights`: the span of a capture that is kept.
unfoldable pub capture_span : ℕ → ℕ → Capture → Option HighlightSpan
unfolding capture_color capture_priority
capture_span range_start range_end c = elim (capture_color c.name) [
  | none ↦ none
  | some color ↦
      if leb 32 (length c.name) || leb c.end_byte range_start || leb range_end c.start_byte
      then none
      else some (record {
        start_row = c.start_row;
        start_col = c.start_col;
        end_row = c.end_row;
        end_col = c.end_col;
        color = color;
        priority = capture_priority c.name;
      })
]

unfoldable pub capture_spans : ℕ → ℕ → List Capture → List HighlightSpan
unfolding capture_span
capture_spans range_start range_end [] = []
capture_spans range_start range_end (c ∷ captures) =
    let rest = capture_spans range_start range_end captures in
    elim (capture_span range_start range_end c) [ none ↦ rest | some span ↦ span ∷ rest ]

-- `collect_highlights`, where there is a tree.
unfoldable pub collect_highlights : Os → Buffer → ℕ → ℕ → List HighlightSpan
unfolding capture_spans
collect_highlights os b range_start range_end = elim b.tree [
  | none ↦ []
  | some parsed ↦
      if b.syntax_enabled
      then capture_spans range_start range_end (os.captures parsed range_start range_end)
      else []
]

-- `span_compare(a, b) <= 0`
unfoldable pub span_not_after : HighlightSpan → HighlightSpan → Bool
span_not_after a b =
    ltb a.start_row b.start_row || (a.start_row == b.start_row && leb a.start_col b.start_col)

-- `qsort` by `span_compare`; spans that start at one point keep their order.
unfoldable pub insert_span : HighlightSpan → List HighlightSpan → List HighlightSpan
unfolding span_not_after
insert_span s [] = s ∷ []
insert_span s (t ∷ rest) =
    let later = t ∷ insert_span s rest in if span_not_after s t then s ∷ t ∷ rest else later

unfoldable pub sort_spans : List HighlightSpan → List HighlightSpan
unfolding insert_span
sort_spans [] = []
sort_spans (s ∷ rest) = insert_span s (sort_spans rest)

-- The parse at the start of `editor_refresh_screen`.
unfoldable pub refresh_tree : Os → Buffer → Buffer
unfolding build_buffer_text
refresh_tree os b =
    let parsed = build_buffer_text b.lines in
    let stale = b.syntax_dirty || (elim b.tree [ none ↦ true | some _ ↦ false ]) in
    if b.syntax_enabled && stale
    then record b { tree = if os.parses parsed then some parsed else b.tree; syntax_dirty = false }
    else b

-- The spans of the rows that the window shows, from `first` to `last_row`.
unfoldable pub visible_spans : Os → Buffer → ℕ → ℕ → List HighlightSpan
unfolding build_line_offsets collect_highlights sort_spans
visible_spans os b first last_row =
    let offsets = build_line_offsets b last_row in
    sort_spans (
      collect_highlights os b (get_or offsets first 0)
        (get_or offsets last_row 0 + line_length b last_row))
