-- ===== src/Tests/Screen.antt =====
-- The output to the terminal and the screen.
use ved.Common.{replicate, get_or, ◌⊎◌, ◌≡◌, ◌↔◌, refl, true, some, List, [], ◌∷◌, arith}
use ved.Text.{codes}
use ved.Base64.{base64_encode}
use ved.Base64.RoundTrip.{decode, decode-base64_encode}
use ved.Terminal.{WriteResult, wrote, interrupted, would_block, write_all}
use ved.Terminal.Progress.{write_all-all}
use ved.Editor.{Editor}
use ved.Region.{get_region}
use ved.Render.Scroll.{editor_scroll}
use ved.Render.Line.{selection_range_for_row}
use ved.Render.Selection.{InRange, InRegion, selection_range_for_row-InRegion}
use ved.Render.Highlight.{HighlightSpan}
use ved.Render.Line.{blank, paint_spans}
use ved.Render.Paint.{Highest, FromOne, paint_spans_lem}
use ved.Render.{cursor_at}
use ved.Render.Cursor.{Between, cursor_at-fits}
use ved.Output.{reset, ab_init}
use ved.Common.{◌+◌, ◌++◌, ◌<◌}
use ved.Finder.{list_rows}
use ved.Render.Scroll.{text_rows}
use ved.Render.Modal.{finder_modal_geometry, prompt_modal_geometry}
use ved.Render.Line.{render_line_with_spans}
use ved.Render.Runs.{in_colors, colors_of, render_line_with_spans-in_colors}
use ved.Render.Boxes.{LiesIn, boxes-LieIn}
use ved.Tests.{apart, doc, pos_at, started}
use ved.Buffer.{line_length}
use ved.Editor.{editor_create, empty_finder}

decode-base64_encode_example : decode (base64_encode (codes "kill")) ≡ some (codes "kill")
decode-base64_encode_example =
    decode-base64_encode (codes "kill")
      (omega arith, (omega arith, (omega arith, (omega arith, tt))))

-- A terminal that takes two bytes at a time and is interrupted once.
abbrev slow : List WriteResult
slow = wrote 2 ∷ interrupted ∷ wrote 2 ∷ would_block ∷ wrote 1 ∷ wrote 1 ∷ []

write_all-all_example : write_all (codes "abcd") slow ≡ (codes "abcd", true)
write_all-all_example = write_all-all (codes "abcd") slow tt (omega arith)

-- The cursor is above the window.
abbrev scrolled : Editor
scrolled = record started { buffer = doc; frame = pos_at 1 0; row_offset = 2; screen_rows = 3 }

-- The mark is behind the cursor.
abbrev marked : Editor
marked = record started { buffer = doc; mark_active = true; frame = pos_at 0 1; mark = pos_at 1 2 }

selection_range_for_row-InRegion_example :
    InRange (selection_range_for_row marked 1) 1 ↔ InRegion (get_region marked) 1 1
selection_range_for_row-InRegion_example = selection_range_for_row-InRegion marked 1 1 (omega arith)

-- The second of two coloured spans has the higher priority.
abbrev spans : List HighlightSpan
spans =
    record {
      start_row = 0;
      start_col = 0;
      end_row = 2;
      end_col = 1;
      color = codes "a";
      priority = 2;
    }
    ∷ record {
      start_row = 1;
      start_col = 1;
      end_row = 1;
      end_col = 3;
      color = codes "b";
      priority = 5;
    }
    ∷ []

paint_spans_lem_example :
    let c = get_or (paint_spans 1 4 (replicate 4 blank) spans) 2 blank in
    Highest 1 2 spans c × ((c ≡ blank) ⊎ FromOne 1 2 spans c)
paint_spans_lem_example = paint_spans_lem 1 4 spans 2 (omega arith)

-- The cursor is right of the window too.
abbrev narrow : Editor
narrow = record scrolled { frame = pos_at 2 1; screen_cols = 1 }

cursor_at-fits_example :
    let (row, col) = cursor_at (editor_scroll narrow) in Between 2 row × Between 1 col
unfolding editor_create empty_finder line_length
cursor_at-fits_example =
    cursor_at-fits narrow refl refl (omega arith) (omega arith)
      (record { row_in = omega arith; col_in = omega arith })
      ((apart 100 0 (omega arith), apart 100 9 (omega arith), omega arith), tt)

render_line_with_spans-in_colors_example :
    (render_line_with_spans ab_init (codes "if x") 0 1 2 spans).bytes
    ≡ ab_init.bytes ++ (in_colors 2 (codes "if x") (colors_of (codes "if x") 0 spans) 1 ++ reset)
render_line_with_spans-in_colors_example =
    render_line_with_spans-in_colors ab_init (codes "if x") 0 1 2 spans (
      apart 105 9 (omega arith),
      (apart 102 9 (omega arith), (apart 32 9 (omega arith), (apart 120 9 (omega arith), tt))),
    )

boxes-LieIn_example :
    let finder = finder_modal_geometry started (text_rows started) in
    let height = list_rows started + 4 in
    LiesIn finder height started.screen_rows started.screen_cols
    × LiesIn
        (prompt_modal_geometry started (text_rows started))
        3
        (text_rows started)
        started.screen_cols
    × (((started.screen_rows < 13) × (finder.row + height ≡ started.screen_rows + 1))
        ⊎ ((12 < started.screen_rows)
            × LiesIn finder height (text_rows started) started.screen_cols))
unfolding editor_create
boxes-LieIn_example = boxes-LieIn started (omega arith) (omega arith)
