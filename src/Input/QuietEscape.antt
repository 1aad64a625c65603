-- ===== src/Input/QuietEscape.antt =====
-- The escape sequences keep the state that Input/Quiet states, and so does every key.
use ved.Common.{
  ℕ, true, false, ◌≡◌, ◌≢◌, refl, inl, inr, Option, List, [], ◌∷◌, arith, ◌==◌, ltb, length, ◌+◌,
  if_cases, ◌||◌,
}
use ved.Os.{Os}
use ved.Editor.{
  Editor, EscState, esc_none, esc_seen, esc_csi, esc_mouse, set_status, touch, editor_create,
}
use ved.Mouse.{
  handle_mouse_event, wheel_up, wheel_down, button_press, button_release, drag, is_digit,
}
use ved.Mouse.Cases.{handle_mouse_event-cases}
use ved.Region.{
  copy_region, yank_from, kill_word_forward, kill_word_backward, kill_columns, kill_word_before,
}
use ved.Input.Flags.{Outcome, finish, done, passed}
use ved.Input.Meta.{
  handle_meta_key, prompt_meta_key, edit_meta_key, copy_command, yank_pop_command, yank_pop,
}
use ved.Input.Escape.{
  handle_escape, escape_in, seen_key, csi_key, mouse_key, keep_byte, arrow_key, leave_escape,
  is_arrow, esc_size,
}
use ved.Input.Quiet.{
  IsQuiet, IsReading, esc-open_finder, unescaped_key-IsQuiet, esc-kill_newline_and_next,
}
use ved.Input.{editor_process_key, process_keys}

esc-kill_word_forward : (ed : Editor) → (kill_word_forward ed).esc_state ≡ ed.esc_state
unfolding kill_word_forward kill_columns
esc-kill_word_forward ed = ground (arith, esc-kill_newline_and_next ed)

esc-kill_word_backward : (ed : Editor) → (kill_word_backward ed).esc_state ≡ ed.esc_state
unfolding kill_word_backward kill_word_before kill_columns
esc-kill_word_backward ed = grind (arith, esc-kill_newline_and_next)

esc-copy_command : (ed : Editor) → (copy_command ed).esc_state ≡ ed.esc_state
unfolding copy_command copy_region set_status
esc-copy_command ed = ground arith

esc-yank_pop_command : (ed : Editor) → (yank_pop_command ed).editor.esc_state ≡ ed.esc_state
unfolding yank_pop_command yank_pop yank_from touch
esc-yank_pop_command ed = ground arith

esc-handle_meta_key :
    (os : Os) (ed : Editor) (key : ℕ) → (handle_meta_key os ed key).editor.esc_state ≡ ed.esc_state
unfolding handle_meta_key prompt_meta_key edit_meta_key touch
esc-handle_meta_key os ed key = ground (
  arith,
  esc-open_finder os ed,
  esc-kill_word_forward ed,
  esc-kill_word_backward ed,
  esc-copy_command ed,
  esc-yank_pop_command ed,
)

esc-handle_mouse_event :
    (ed : Editor) (seq : List ℕ) (type : ℕ)
    → (handle_mouse_event ed seq type).1.esc_state ≡ ed.esc_state
unfolding wheel_up wheel_down button_press button_release drag
esc-handle_mouse_event ed =
    handle_mouse_event-cases (λ after. after.esc_state ≡ ed.esc_state) ed refl (ground arith)
      (ground arith) (λ x y. refl) (λ x y. refl) (λ x y. refl)

-- What the handling of a sequence leaves: it goes on and the flags are cleared, or it is over.
record Leaves (o : Outcome) : Type 0 where
  over : (o.handled ≡ false) → o.editor.esc_state ≡ esc_none
  quiet : (o.handled ≡ true) → IsQuiet (finish o)

done_over : (ed : Editor) → ed.esc_state ≡ esc_none → Leaves (done ed)
unfolding finish
done_over ed e = record { over = λ h. cc; quiet = λ h. inl e }

passed_over : (ed : Editor) → ed.esc_state ≡ esc_none → Leaves (passed ed)
passed_over ed e = record { over = λ h. e; quiet = λ h. cc }

done_quiet : (ed : Editor) → IsQuiet (finish (done ed)) → Leaves (done ed)
done_quiet ed q = record { over = λ h. cc; quiet = λ h. q }

-- A handler that ends the sequence, and one that goes on with it.
over_by : (o : Outcome) → o.editor.esc_state ≡ esc_none → Leaves o
unfolding finish
over_by o e = record { over = λ h. e; quiet = λ h. inl e }

goes_on :
    (ed : Editor) (st : EscState) (bytes : List ℕ)
    → IsReading ed
    → Leaves (done (record ed { esc_state = st; esc_buf = bytes }))
unfolding finish
goes_on ed st bytes r = record {
  over = λ h. cc;
  quiet = λ h.
      inr (record {
        no_kill = refl;
        no_yank = refl;
        no_finder = r.no_finder;
        no_search = r.no_search;
      });
}

module _ (os : Os) (ed : Editor) (key : ℕ) (r : IsReading ed) where
  keep_byte-Leaves : Leaves (done (keep_byte ed key))
  unfolding keep_byte
  keep_byte-Leaves =
      if_cases (λ after. Leaves (done after)) (ltb (length ed.esc_buf + 1) esc_size)
        (λ _. goes_on ed ed.esc_state _ r) (λ _. over_by _ refl)

  esc-arrow_key : (arrow_key (leave_escape ed) key).esc_state ≡ esc_none
  unfolding arrow_key
  esc-arrow_key = ground arith

  csi_key-Leaves : Leaves (csi_key os ed key)
  unfolding csi_key
  csi_key-Leaves =
      if_cases Leaves (is_arrow key) (λ _. over_by _ esc-arrow_key)
        (λ _.
          if_cases Leaves (key == b'<') (λ _. goes_on ed esc_mouse [] r)
            (λ _.
              if_cases Leaves (is_digit key || key == b';') (λ _. keep_byte-Leaves)
                (λ _.
                  if_cases Leaves (key == b'p' || key == b'P')
                    (λ _. over_by _ (esc-open_finder os (leave_escape ed))) (λ _. over_by _ refl))))

  mouse_key-Leaves : Leaves (mouse_key ed key)
  unfolding mouse_key
  mouse_key-Leaves =
      if_cases Leaves (key == b'm' || key == b'M')
        (λ _.
          if_cases Leaves (handle_mouse_event (leave_escape ed) ed.esc_buf key).0
            (λ _. over_by _ (esc-handle_mouse_event (leave_escape ed) ed.esc_buf key))
            (λ _. over_by _ (esc-handle_mouse_event (leave_escape ed) ed.esc_buf key)))
        (λ _. keep_byte-Leaves)

  seen_key-Leaves : Leaves (seen_key os ed key)
  unfolding seen_key
  seen_key-Leaves =
      if_cases Leaves (key == b'[') (λ _. goes_on ed esc_csi ed.esc_buf r)
        (λ _. over_by _ (esc-handle_meta_key os (leave_escape ed) key))

-- A state in which a sequence is being read.
pub IsQuiet-IsReading : (ed : Editor) → IsQuiet ed → ed.esc_state ≢ esc_none → IsReading ed
IsQuiet-IsReading ed (inl e) n = absurd (n e)
IsQuiet-IsReading ed (inr r) n = r

handle_escape-Leaves :
    (os : Os) (ed : Editor) (key : ℕ) → IsQuiet ed → Leaves (handle_escape os ed key)
unfolding handle_escape
handle_escape-Leaves os ed key q = by_state ed.esc_state refl
  where
    by_state : (st : EscState) → ed.esc_state ≡ st → Leaves (escape_in st os ed key)
    by_state esc_none e = over_by (passed ed) e
    by_state esc_seen e = seen_key-Leaves os ed key (IsQuiet-IsReading ed q (λ n. cc))
    by_state esc_csi e = csi_key-Leaves os ed key (IsQuiet-IsReading ed q (λ n. cc))
    by_state esc_mouse e = mouse_key-Leaves os ed key (IsQuiet-IsReading ed q (λ n. cc))

-- Every key keeps this: while an escape sequence is being read, the last command counts neither as
-- a kill nor as a yank, and neither the finder nor the search is open.
pub editor_process_key-IsQuiet :
    (os : Os) (ed : Editor) (key : ℕ) → IsQuiet ed → IsQuiet (editor_process_key os ed key)
unfolding editor_process_key
editor_process_key-IsQuiet os ed key q =
    let leaves = handle_escape-Leaves os ed key q in
    if_cases IsQuiet (handle_escape os ed key).handled (λ h. Leaves.quiet leaves h)
      (λ h. unescaped_key-IsQuiet os (handle_escape os ed key).editor key (Leaves.over leaves h))

-- A sequence of keys keeps it too.
pub process_keys-IsQuiet :
    (os : Os) (keys : List ℕ) (ed : Editor) → IsQuiet ed → IsQuiet (process_keys os ed keys)
unfolding process_keys
process_keys-IsQuiet os [] ed q = q
process_keys-IsQuiet os (key ∷ keys) ed q =
    process_keys-IsQuiet os keys (editor_process_key os ed key)
      (editor_process_key-IsQuiet os ed key q)

pub editor_create-IsQuiet :
    (os : Os) (path : Option (List ℕ)) (rows cols : ℕ) → IsQuiet (editor_create os path rows cols)
unfolding editor_create
editor_create-IsQuiet os path rows cols = inl refl
