-- ===== src/Input/PlacedKeys.antt =====
-- Every key of src/input.c keeps the cursor on a row of the buffer.
use ved.Common.{
  ℕ, ap, ◌∙◌, ◌≡◌, refl, Bool, false, true, inl, inr, Option, none, some, List, [], ◌∷◌, arith,
  ◌==◌, if_cases,
}
use ved.Os.{Os}
use ved.Buffer.{init_syntax, init}
use ved.Buffer.Counts.{count-load_file}
use ved.Frame.Rows.{
  move_prev_line-OnRow, move_next_line-OnRow, move_prev_char-OnRow, move_next_char-OnRow,
}
use ved.Frame.{move_line_start, move_line_end}
use ved.Editor.{Editor, Finder, set_status, editor_create}
use ved.Isearch.{isearch_begin, isearch_set_status, isearch_handle_key}
use ved.Input.Flags.{Outcome, finish, done}
use ved.Finder.{ctrl, finder_handle_key}
use ved.Input.Command.{
  handle_command, mark_command, kill_region_command, yank_command, save_command,
}
use ved.Input.Prompt.{save, prompt_save_as, prompt_accept, prompt_cancel, prompt_handle_key}
use ved.Input.Escape.{handle_escape}
use ved.Input.Quiet.{IsQuiet, isearch_handle_key-passed, finder-isearch_handle_key}
use ved.Input.QuietEscape.{editor_process_key-IsQuiet}
use ved.Input.Placed.{
  IsEditing, open_line-IsEditing, split_line-IsEditing, tab-IsEditing, type_key-IsEditing,
  delete_forward-IsEditing, kill_line-IsEditing, backspace-IsEditing, kill_region-IsEditing,
  yank-IsEditing,
}
use ved.Input.PlacedEscape.{escape_in-IsEditing, finder_handle_key-IsEditing}
use ved.Input.{
  cancel, text_key, ctrl_x_key, plain_key, unescaped_key, editor_process_key, process_keys,
}
use ved.Input.PlacedSearch.{IsPlaced, isearch_handle_key-IsPlaced}

handle_command-IsEditing :
    (ed : Editor) (key : ℕ) → IsEditing ed → IsEditing (handle_command ed key).editor
unfolding handle_command mark_command kill_region_command yank_command set_status move_line_start
    move_line_end
handle_command-IsEditing ed key h = ground (
  arith,
  open_line-IsEditing ed h,
  split_line-IsEditing ed h,
  tab-IsEditing ed h,
  type_key-IsEditing ed h key,
  delete_forward-IsEditing ed h,
  kill_line-IsEditing ed h,
  backspace-IsEditing ed h,
  kill_region-IsEditing ed h,
  yank-IsEditing ed h,
  move_prev_line-OnRow ed.buffer ed.frame,
  move_next_line-OnRow ed.buffer ed.frame,
  move_prev_char-OnRow ed.buffer ed.frame,
  move_next_char-OnRow ed.buffer ed.frame,
)

save-IsEditing :
    (os : Os) (ed : Editor) (path : List ℕ) (rename : Bool)
    → IsEditing ed
    → IsEditing (save os ed path rename)
unfolding save set_status
save-IsEditing os ed path rename h = ground arith

prompt_handle_key-IsEditing :
    (os : Os) (ed : Editor) (key : ℕ) → IsEditing ed → IsEditing (prompt_handle_key os ed key)
unfolding prompt_handle_key prompt_cancel prompt_accept set_status
prompt_handle_key-IsEditing os ed key h =
    ground (arith, save-IsEditing os ed ed.prompt.bytes true h)

save_command-IsEditing : (os : Os) (ed : Editor) → IsEditing ed → IsEditing (save_command os ed)
unfolding save_command prompt_save_as
save_command-IsEditing os ed h = grind (arith, save-IsEditing)

IsEditing-IsPlaced : (ed : Editor) → IsEditing ed → IsPlaced ed
IsEditing-IsPlaced ed (c, s) = record { cursor = c; search = inl s }

isearch_begin-IsPlaced :
    (ed : Editor) (forward : Bool)
    → IsEditing ed
    → ed.finder.active ≡ false
    → IsPlaced (isearch_begin ed forward)
unfolding isearch_begin isearch_set_status set_status
isearch_begin-IsPlaced ed forward (c, s) f = rw s (record { cursor = c; search = inr (c, f) })

finish-IsPlaced : (o : Outcome) → IsPlaced o.editor → IsPlaced (finish o)
unfolding finish
finish-IsPlaced o p = record { cursor = p.cursor; search = p.search }

text_key-IsPlaced :
    (ed : Editor) (key : ℕ) → IsEditing ed → ed.finder.active ≡ false → IsPlaced (text_key ed key)
unfolding text_key
text_key-IsPlaced ed key h f =
    if_cases IsPlaced (key == ctrl b's')
      (λ _. finish-IsPlaced (done _) (isearch_begin-IsPlaced ed true h f))
      (λ _.
        if_cases IsPlaced (key == ctrl b'r')
          (λ _. finish-IsPlaced (done _) (isearch_begin-IsPlaced ed false h f))
          (λ _. finish-IsPlaced _ (IsEditing-IsPlaced _ (handle_command-IsEditing ed key h))))

module _ (os : Os) (ed : Editor) (key : ℕ) (h : IsEditing ed) (f : ed.finder.active ≡ false) where
  ctrl_x_key-IsPlaced : IsPlaced (ctrl_x_key os ed key)
  unfolding ctrl_x_key
  ctrl_x_key-IsPlaced =
      let ed' = record ed { pending_ctrl_x = false } in
      if_cases IsPlaced (key == ctrl b's')
        (λ _. finish-IsPlaced (done _) (IsEditing-IsPlaced _ (save_command-IsEditing os ed' h)))
        (λ _.
          if_cases IsPlaced (key == ctrl b'c') (λ _. record { cursor = h.0; search = inl h.1 })
            (λ _. text_key-IsPlaced ed' key h f))

  plain_key-IsPlaced : IsPlaced (plain_key os ed key)
  unfolding plain_key cancel set_status
  plain_key-IsPlaced =
      if_cases IsPlaced (key == 27)
        (λ _. finish-IsPlaced (done _) (record { cursor = h.0; search = inl h.1 }))
        (λ _.
          if_cases IsPlaced (key == ctrl b'g') (λ _. record { cursor = h.0; search = inl h.1 })
            (λ _.
              if_cases IsPlaced ed.prompt_active
                (λ _. IsEditing-IsPlaced _ (prompt_handle_key-IsEditing os ed key h))
                (λ _.
                  if_cases IsPlaced ed.pending_ctrl_x (λ _. ctrl_x_key-IsPlaced)
                    (λ _. text_key-IsPlaced ed key h f))))

-- The finder is closed while a search is active.
finder_key-IsPlaced :
    (os : Os) (ed : Editor) (key : ℕ)
    → IsPlaced ed
    → ed.finder.active ≡ true
    → IsPlaced (finder_handle_key os ed key)
finder_key-IsPlaced os ed key p f =
    let off : ed.isearch_active ≡ false = elim p.search [ inl n ↦ n | inr (o, c) ↦ cc ] in
    IsEditing-IsPlaced _ (finder_handle_key-IsEditing os ed key (p.cursor, off))

unescaped_key-IsPlaced :
    (os : Os) (ed : Editor) (key : ℕ) → IsPlaced ed → IsPlaced (unescaped_key os ed key)
unfolding unescaped_key
unescaped_key-IsPlaced os ed key p =
    let searched = isearch_handle_key-IsPlaced ed key p in
    if_cases IsPlaced ed.finder.active
      (λ f. finish-IsPlaced (done _) (finder_key-IsPlaced os ed key p f))
      (λ f.
        if_cases IsPlaced (isearch_handle_key ed key).0 (λ _. finish-IsPlaced (done _) searched)
          (λ s.
            plain_key-IsPlaced os (isearch_handle_key ed key).1 key
              (searched.cursor, isearch_handle_key-passed ed key s)
              (ap (λ fd. Finder.active fd) (finder-isearch_handle_key ed key) ∙ f)))

-- In the middle of an escape sequence no search is active.
handle_escape-IsPlaced :
    (os : Os) (ed : Editor) (key : ℕ)
    → IsQuiet ed
    → IsPlaced ed
    → IsPlaced (handle_escape os ed key).editor
unfolding handle_escape
handle_escape-IsPlaced os ed key (inl e) p = rw e (record { cursor = p.cursor; search = p.search })
handle_escape-IsPlaced os ed key (inr r) p =
    IsEditing-IsPlaced _
      (escape_in-IsEditing ed.esc_state os ed key (p.cursor, r.no_search) r.no_yank)

-- Every key keeps the cursor on a row of the buffer, and with it the position to which an active
-- search returns; the key may come in the middle of an escape sequence, with the state that
-- `IsQuiet` describes.
pub editor_process_key-IsPlaced :
    (os : Os) (ed : Editor) (key : ℕ)
    → IsQuiet ed
    → IsPlaced ed
    → IsPlaced (editor_process_key os ed key)
unfolding editor_process_key
editor_process_key-IsPlaced os ed key q p =
    let escaped = handle_escape-IsPlaced os ed key q p in
    if_cases IsPlaced (handle_escape os ed key).handled (λ _. finish-IsPlaced _ escaped)
      (λ _. unescaped_key-IsPlaced os _ key escaped)

pub process_keys-IsPlaced :
    (os : Os) (keys : List ℕ) (ed : Editor)
    → IsQuiet ed
    → IsPlaced ed
    → IsPlaced (process_keys os ed keys)
unfolding process_keys
process_keys-IsPlaced os [] ed q p = p
process_keys-IsPlaced os (key ∷ keys) ed q p =
    process_keys-IsPlaced os keys (editor_process_key os ed key)
      (editor_process_key-IsQuiet os ed key q) (editor_process_key-IsPlaced os ed key q p)

pub editor_create-IsPlaced :
    (os : Os) (path : Option (List ℕ)) (rows cols : ℕ) → IsPlaced (editor_create os path rows cols)
unfolding editor_create init_syntax init
editor_create-IsPlaced os none rows cols = record { cursor = omega arith; search = inl refl }
editor_create-IsPlaced os (some name) rows cols = record {
  cursor = let h = count-load_file os init name (omega arith) in h;
  search = inl refl;
}
