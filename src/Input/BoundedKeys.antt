-- ===== src/Input/BoundedKeys.antt =====
-- Every key of src/input.c stays inside the arrays of `Editor`.
use ved.Common.{ℕ, ◌++◌, false, true, Option, List, [], ◌∷◌, arith, ◌==◌, if_cases}
use ved.Text.{codes}
use ved.Os.{Os}
use ved.KillRing.Laws.{empty-IsValid}
use ved.Editor.{Editor, esc_seen, empty_finder, set_status, editor_create}
use ved.Isearch.{isearch_begin, isearch_handle_key}
use ved.Input.Flags.{Outcome, finish, done}
use ved.Finder.{ctrl, finder_handle_key}
use ved.Input.Command.{handle_command, save_command}
use ved.Input.Escape.{handle_escape}
use ved.Input.Bounded.{RingFits, IsBounded, length-status, handle_command-IsBounded}
use ved.Input.BoundedEscape.{blank-FieldFits, escape_in-IsBounded, finder_handle_key-IsBounded}
use ved.Input.BoundedSearch.{
  save_command-IsBounded, prompt_handle_key-IsBounded, isearch_begin-IsBounded,
  isearch_handle_key-IsBounded,
}
use ved.Input.{
  cancel, text_key, ctrl_x_key, plain_key, unescaped_key, editor_process_key, process_keys,
}

finish-IsBounded : (o : Outcome) → IsBounded o.editor → IsBounded (finish o)
unfolding finish
finish-IsBounded o b = b

text_key-IsBounded : (ed : Editor) (key : ℕ) → IsBounded ed → IsBounded (text_key ed key)
unfolding text_key
text_key-IsBounded ed key b =
    if_cases IsBounded (key == ctrl b's')
      (λ _. finish-IsBounded (done (isearch_begin ed true)) (isearch_begin-IsBounded ed true b))
      (λ _.
        if_cases IsBounded (key == ctrl b'r')
          (λ _.
            finish-IsBounded (done (isearch_begin ed false)) (isearch_begin-IsBounded ed false b))
          (λ _. finish-IsBounded (handle_command ed key) (handle_command-IsBounded ed b key)))

module _ (os : Os) (ed : Editor) (key : ℕ) (b : IsBounded ed) where
  ctrl_x_key-IsBounded : IsBounded (ctrl_x_key os ed key)
  unfolding ctrl_x_key
  ctrl_x_key-IsBounded =
      let ed' = record ed { pending_ctrl_x = false } in
      if_cases IsBounded (key == ctrl b's')
        (λ _. finish-IsBounded (done (save_command os ed')) (save_command-IsBounded os ed' b))
        (λ _.
          if_cases IsBounded (key == ctrl b'c') {x = record ed' { should_exit = true }} (λ _. b)
            (λ _. text_key-IsBounded ed' key b))

  cancel-IsBounded : IsBounded (cancel ed)
  unfolding cancel set_status
  cancel-IsBounded = ground (arith, blank-FieldFits, length-status (codes "Canceled" ++ []))

  plain_key-IsBounded : IsBounded (plain_key os ed key)
  unfolding plain_key
  plain_key-IsBounded =
      if_cases IsBounded (key == 27)
        (λ _. finish-IsBounded (done (record ed { esc_state = esc_seen })) b)
        (λ _.
          if_cases IsBounded (key == ctrl b'g') (λ _. cancel-IsBounded)
            (λ _.
              if_cases IsBounded ed.prompt_active (λ _. prompt_handle_key-IsBounded os ed key b)
                (λ _.
                  if_cases IsBounded ed.pending_ctrl_x (λ _. ctrl_x_key-IsBounded)
                    (λ _. text_key-IsBounded ed key b))))

unescaped_key-IsBounded :
    (os : Os) (ed : Editor) (key : ℕ) → IsBounded ed → IsBounded (unescaped_key os ed key)
unfolding unescaped_key
unescaped_key-IsBounded os ed key b =
    let searched = isearch_handle_key ed key in
    let b' : IsBounded searched.1 = isearch_handle_key-IsBounded ed key b in
    if_cases IsBounded ed.finder.active
      (λ _.
        finish-IsBounded (done (finder_handle_key os ed key))
          (finder_handle_key-IsBounded os ed key b))
      (λ _.
        if_cases IsBounded searched.0 (λ _. finish-IsBounded (done searched.1) b')
          (λ _. plain_key-IsBounded os searched.1 key b'))

-- Every key, in every state, keeps what stands in the arrays of `Editor` inside them, with room for
-- the terminators: the prompt, the query of the finder, the kill ring, the query of the search, the
-- escape sequence and the status.
pub editor_process_key-IsBounded :
    (os : Os) (ed : Editor) (key : ℕ) → IsBounded ed → IsBounded (editor_process_key os ed key)
unfolding editor_process_key handle_escape
editor_process_key-IsBounded os ed key b =
    let o = handle_escape os ed key in
    let b' : IsBounded o.editor = escape_in-IsBounded ed.esc_state os ed key b in
    if_cases IsBounded o.handled (λ _. finish-IsBounded o b')
      (λ _. unescaped_key-IsBounded os o.editor key b')

process_keys-IsBounded :
    (os : Os) (keys : List ℕ) (ed : Editor) → IsBounded ed → IsBounded (process_keys os ed keys)
unfolding process_keys
process_keys-IsBounded os [] ed b = b
process_keys-IsBounded os (key ∷ keys) ed b =
    process_keys-IsBounded os keys (editor_process_key os ed key)
      (editor_process_key-IsBounded os ed key b)

pub editor_create-IsBounded :
    (os : Os) (path : Option (List ℕ)) (rows cols : ℕ) → IsBounded (editor_create os path rows cols)
unfolding editor_create RingFits
editor_create-IsBounded os path rows cols = record {
  prompt_in = blank-FieldFits;
  query_in = unfold empty_finder in blank-FieldFits;
  ring_in = empty-IsValid;
  search_in = omega arith;
  escape_in = omega arith;
  status_in = omega arith;
}
