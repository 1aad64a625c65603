-- ===== src/Input/YankPop.antt =====
-- What Input/Quiet means for `M-y` and for the arrow keys in the finder of src/input.c.
use ved.Common.{ℕ, false, ◌≡◌, sym, ap, ◌∙◌, if◌then◌else◌, Option, List, arith}
use ved.Os.{Os}
use ved.Editor.{Editor, esc_none, esc_seen, editor_create}
use ved.Input.Flags.{Outcome, finish, done}
use ved.Input.Meta.{handle_meta_key, edit_meta_key, lower_key, yank_pop_command}
use ved.Input.Escape.{handle_escape, escape_in, seen_key}
use ved.Input.Quiet.{IsReading}
use ved.Input.QuietEscape.{IsQuiet-IsReading, process_keys-IsQuiet, editor_create-IsQuiet}
use ved.Input.{editor_process_key, process_keys, unescaped_key}

-- `y` behind an escape when the flag of the last yank is not set.
meta_y-done :
    (os : Os) (ed : Editor)
    → ed.prompt_active ≡ false
    → ed.last_was_yank ≡ false
    → seen_key os ed b'y' ≡ done (record ed { esc_state = esc_none })
unfolding seen_key handle_meta_key edit_meta_key lower_key yank_pop_command
meta_y-done os ed p y = ground arith

finish-done :
    (ed : Editor) → ed.last_was_kill ≡ false → ed.last_was_yank ≡ false → finish (done ed) ≡ ed
unfolding finish
finish-done ed k y = λ i. record ed { last_was_kill = sym k i; last_was_yank = sym y i }

meta_y-nothing :
    (os : Os) (ed : Editor)
    → ed.esc_state ≡ esc_seen
    → ed.prompt_active ≡ false
    → IsReading ed
    → editor_process_key os ed b'y' ≡ record ed { esc_state = esc_none }
unfolding editor_process_key handle_escape
meta_y-nothing os ed e p r =
    ap (λ o. if Outcome.handled o then finish o else unescaped_key os (Outcome.editor o) b'y')
      outcome
    ∙ finish-done (record ed { esc_state = esc_none }) r.no_kill r.no_yank
  where
    outcome : escape_in ed.esc_state os ed b'y' ≡ done (record ed { esc_state = esc_none })
    outcome =
        ap (λ st. escape_in st os ed b'y') e ∙ unfold escape_in in meta_y-done os ed p r.no_yank

-- In every state that the editor can reach, `y` behind an escape does nothing but end the escape,
-- unless the prompt is open: `M-y` never replaces a yanked text, whatever was done before it.
pub yank_pop_never :
    (os : Os) (path : Option (List ℕ)) (rows cols : ℕ) (keys : List ℕ)
    → let ed = process_keys os (editor_create os path rows cols) keys in
      ed.esc_state ≡ esc_seen
      → ed.prompt_active ≡ false
      → editor_process_key os ed b'y' ≡ record ed { esc_state = esc_none }
yank_pop_never os path rows cols keys e p =
    let ed = process_keys os (editor_create os path rows cols) keys in
    let q = process_keys-IsQuiet os keys _ (editor_create-IsQuiet os path rows cols) in
    meta_y-nothing os ed e p (IsQuiet-IsReading ed q (λ n. cc))
