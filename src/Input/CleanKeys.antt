-- ===== src/Input/CleanKeys.antt =====
-- Every key of src/input.c keeps the lines and the kill ring clean.
use ved.Common.{
  ℕ, ◌<◌, false, true, Bool, Option, none, some, List, [], ◌∷◌, arith, ◌==◌, if_cases, length,
}
use ved.Common.All.{All}
use ved.Os.{Os}
use ved.Buffer.{init, init_syntax, write_file}
use ved.Buffer.Clean.{CleanLine, CleanLines}
use ved.Buffer.CleanFile.{FileByte, HoldsBytes, load_file-CleanLines}
use ved.KillRing.Clean.{empty-CleanRing}
use ved.Frame.{Frame}
use ved.Editor.{Editor, esc_seen, editor_create, set_status}
use ved.Isearch.{
  isearch_begin, isearch_set_status, isearch_finish, isearch_find, isearch_backspace, isearch_type,
  isearch_target, isearch_handle_key,
}
use ved.Input.Flags.{Outcome, finish, done}
use ved.Finder.{ctrl, finder_handle_key}
use ved.Region.Clean.{IsClean}
use ved.Input.Command.{handle_command, save_command}
use ved.Input.Prompt.{
  record_write, save, prompt_save_as, prompt_accept, prompt_cancel, prompt_handle_key,
}
use ved.Input.Escape.{handle_escape}
use ved.Input.Clean.{handle_command-IsClean}
use ved.Input.CleanEscape.{finder_handle_key-IsClean, escape_in-IsClean}
use ved.Input.{
  cancel, text_key, ctrl_x_key, plain_key, unescaped_key, editor_process_key, process_keys,
}

record_write-IsClean :
    (ed : Editor) (path : List ℕ) (contents : Option (List ℕ))
    → IsClean ed
    → IsClean (record_write ed path contents)
record_write-IsClean ed path none h = h
record_write-IsClean ed path (some contents) h = h

save-IsClean :
    (os : Os) (ed : Editor) (path : List ℕ) (rename : Bool)
    → IsClean ed
    → IsClean (save os ed path rename)
unfolding save set_status
save-IsClean os ed path rename h =
    let contents = (write_file os ed.buffer path).1 in
    let after = record_write ed path contents in
    let h' : IsClean after = record_write-IsClean ed path contents h in ground arith

module _ (os : Os) (ed : Editor) (h : IsClean ed) where
  prompt_accept-IsClean : IsClean (prompt_accept os ed)
  unfolding prompt_accept set_status
  prompt_accept-IsClean = ground (arith, save-IsClean os ed ed.prompt.bytes true h)

  prompt_cancel-IsClean : IsClean (prompt_cancel ed)
  unfolding prompt_cancel set_status
  prompt_cancel-IsClean = h

  prompt_handle_key-IsClean : (key : ℕ) → IsClean (prompt_handle_key os ed key)
  unfolding prompt_handle_key
  prompt_handle_key-IsClean key = ground (arith, prompt_accept-IsClean, prompt_cancel-IsClean)

  save_command-IsClean : IsClean (save_command os ed)
  unfolding save_command prompt_save_as
  save_command-IsClean = grind (arith, save-IsClean)

-- The search leaves the text alone.
isearch_set_status-IsClean :
    (ed : Editor) (failed : Bool) → IsClean ed → IsClean (isearch_set_status ed failed)
unfolding isearch_set_status set_status
isearch_set_status-IsClean ed failed h = h

isearch_begin-IsClean :
    (ed : Editor) (forward : Bool) → IsClean ed → IsClean (isearch_begin ed forward)
unfolding isearch_begin isearch_set_status set_status
isearch_begin-IsClean ed forward h = ground arith

module _ (ed : Editor) (h : IsClean ed) where
  by_target-IsClean :
      (target : Option Frame)
      → IsClean (elim target [
        | some found ↦
            isearch_set_status (record ed { frame = found; isearch_has_match = true }) false
        | none ↦ isearch_set_status (record ed { isearch_has_match = false }) true
      ])
  by_target-IsClean none =
      isearch_set_status-IsClean (record ed { isearch_has_match = false }) true h
  by_target-IsClean (some found) =
      isearch_set_status-IsClean (record ed { frame = found; isearch_has_match = true }) false h

  isearch_find-IsClean : (repeat : Bool) → IsClean (isearch_find ed repeat)
  unfolding isearch_find
  isearch_find-IsClean repeat =
      if_cases IsClean (length ed.isearch_query == 0)
        (λ _.
          isearch_set_status-IsClean
            (record ed { frame = ed.isearch_origin; isearch_has_match = false }) false h)
        (λ _. by_target-IsClean (isearch_target ed repeat))

  isearch_finish-IsClean : (restore : Bool) → IsClean (isearch_finish ed restore)
  unfolding isearch_finish
  isearch_finish-IsClean restore = ground arith

isearch_handle_key-IsClean :
    (ed : Editor) (key : ℕ) → IsClean ed → IsClean (isearch_handle_key ed key).1
unfolding isearch_handle_key isearch_backspace isearch_type
isearch_handle_key-IsClean ed key h = grind (arith, isearch_finish-IsClean, isearch_find-IsClean)

finish-IsClean : (o : Outcome) → IsClean o.editor → IsClean (finish o)
unfolding finish
finish-IsClean o h = h

text_key-IsClean : (ed : Editor) (key : ℕ) → IsClean ed → key < 256 → IsClean (text_key ed key)
unfolding text_key
text_key-IsClean ed key h byte =
    if_cases IsClean (key == ctrl b's')
      (λ _. finish-IsClean (done (isearch_begin ed true)) (isearch_begin-IsClean ed true h))
      (λ _.
        if_cases IsClean (key == ctrl b'r')
          (λ _. finish-IsClean (done (isearch_begin ed false)) (isearch_begin-IsClean ed false h))
          (λ _. finish-IsClean (handle_command ed key) (handle_command-IsClean ed h key byte)))

module _ (os : Os) (ed : Editor) (key : ℕ) (h : IsClean ed) where
  ctrl_x_key-IsClean : key < 256 → IsClean (ctrl_x_key os ed key)
  unfolding ctrl_x_key
  ctrl_x_key-IsClean byte =
      let ed' = record ed { pending_ctrl_x = false } in
      if_cases IsClean (key == ctrl b's')
        (λ _. finish-IsClean (done (save_command os ed')) (save_command-IsClean os ed' h))
        (λ _.
          if_cases IsClean (key == ctrl b'c') {x = record ed' { should_exit = true }} (λ _. h)
            (λ _. text_key-IsClean ed' key h byte))

  cancel-IsClean : IsClean (cancel ed)
  unfolding cancel set_status
  cancel-IsClean = ground arith

  plain_key-IsClean : key < 256 → IsClean (plain_key os ed key)
  unfolding plain_key
  plain_key-IsClean byte =
      if_cases IsClean (key == 27)
        (λ _. finish-IsClean (done (record ed { esc_state = esc_seen })) h)
        (λ _.
          if_cases IsClean (key == ctrl b'g') (λ _. cancel-IsClean)
            (λ _.
              if_cases IsClean ed.prompt_active (λ _. prompt_handle_key-IsClean os ed h key)
                (λ _.
                  if_cases IsClean ed.pending_ctrl_x (λ _. ctrl_x_key-IsClean byte)
                    (λ _. text_key-IsClean ed key h byte))))

module _ (os : Os) (bytes : HoldsBytes os) where
  unescaped_key-IsClean :
      (ed : Editor) (key : ℕ) → IsClean ed → key < 256 → IsClean (unescaped_key os ed key)
  unfolding unescaped_key
  unescaped_key-IsClean ed key h byte =
      let searched = isearch_handle_key ed key in
      let h' : IsClean searched.1 = isearch_handle_key-IsClean ed key h in
      if_cases IsClean ed.finder.active
        (λ _.
          finish-IsClean (done (finder_handle_key os ed key))
            (finder_handle_key-IsClean os bytes ed h key))
        (λ _.
          if_cases IsClean searched.0 (λ _. finish-IsClean (done searched.1) h')
            (λ _. plain_key-IsClean os searched.1 key h' byte))

  -- Every key that is a byte, in every state, keeps the text clean, where files hold bytes: every
  -- line stays a C string without a newline, and every entry of the kill ring a C string.
  pub editor_process_key-IsClean :
      (ed : Editor) (key : ℕ) → IsClean ed → key < 256 → IsClean (editor_process_key os ed key)
  unfolding editor_process_key handle_escape
  editor_process_key-IsClean ed key h byte =
      let o = handle_escape os ed key in
      let h' : IsClean o.editor = escape_in-IsClean ed.esc_state os ed key h in
      if_cases IsClean o.handled (λ _. finish-IsClean o h')
        (λ _. unescaped_key-IsClean o.editor key h' byte)

  process_keys-IsClean :
      (keys : List ℕ) (ed : Editor)
      → IsClean ed
      → All FileByte keys
      → IsClean (process_keys os ed keys)
  unfolding process_keys
  process_keys-IsClean [] ed h p = h
  process_keys-IsClean (key ∷ keys) ed h (byte, p) =
      process_keys-IsClean keys (editor_process_key os ed key)
        (editor_process_key-IsClean ed key h byte) p

  init_lines : CleanLines init.lines
  unfolding init CleanLines CleanLine
  init_lines = omega arith

  pub editor_create-IsClean :
      (path : Option (List ℕ)) (rows cols : ℕ) → IsClean (editor_create os path rows cols)
  unfolding editor_create init_syntax
  editor_create-IsClean none rows cols = (init_lines, empty-CleanRing)
  editor_create-IsClean (some path) rows cols =
      (load_file-CleanLines os init path bytes init_lines, empty-CleanRing)
