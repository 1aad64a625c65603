-- ===== src/Input/BoundedSearch.antt =====
-- The prompt, the saves and the search of src/input.c stay inside the arrays of `Editor`.
use ved.Common.{
  ℕ, ◌++◌, Bool, false, true, Option, none, some, List, [], arith, ◌==◌, length, length-append,
  length-take, if_cases,
}
use ved.Text.{codes}
use ved.Os.{Os}
use ved.Buffer.{write_file}
use ved.Field.{Field}
use ved.Field.Bounds.{
  to_start, to_end, to_prev_char, to_next_char, erase_backward, erase_forward, erase_prev_word,
  erase_to_end, type,
}
use ved.Frame.{Frame}
use ved.Editor.{Editor, set_status}
use ved.Isearch.{
  isearch_begin, isearch_set_status, isearch_prefix, isearch_finish, isearch_find,
  isearch_backspace, isearch_type, isearch_target, isearch_handle_key,
}
use ved.Input.Command.{save_command}
use ved.Input.Prompt.{
  record_write, save, prompt_save_as, prompt_accept, prompt_cancel, prompt_handle_key,
}
use ved.Input.Bounded.{FieldFits, IsBounded, length-status, set_status-IsBounded}
use ved.Input.BoundedEscape.{apply-FieldFits, blank-FieldFits}

record_write-IsBounded :
    (ed : Editor) (path : List ℕ) (contents : Option (List ℕ))
    → IsBounded ed
    → IsBounded (record_write ed path contents)
record_write-IsBounded ed path none b = b
record_write-IsBounded ed path (some contents) b = b

save-IsBounded :
    (os : Os) (ed : Editor) (path : List ℕ) (rename : Bool)
    → IsBounded ed
    → IsBounded (save os ed path rename)
unfolding save
save-IsBounded os ed path rename b =
    let after = record_write ed path (write_file os ed.buffer path).1 in
    let b' : IsBounded after = record_write-IsBounded ed path (write_file os ed.buffer path).1 b in
    if_cases IsBounded (write_file os ed.buffer path).0
      (λ _. set_status-IsBounded (record after { buffer = _; dirty = false }) (codes "Saved") [] b')
      (λ _. set_status-IsBounded after (codes "Save failed: ") os.strerror b')

-- The cursor of the prompt is put back when the prompt is closed.
closed-FieldFits : (f : Field) → FieldFits f → FieldFits (record f { col = 0 })
unfolding FieldFits
closed-FieldFits f h = record { fits = h.fits; col_in = omega arith }

prompt_accept-IsBounded : (os : Os) (ed : Editor) → IsBounded ed → IsBounded (prompt_accept os ed)
unfolding prompt_accept
prompt_accept-IsBounded os ed b = ground (
  arith,
  save-IsBounded os ed ed.prompt.bytes true b,
  set_status-IsBounded ed (codes "No file name") [] b,
  closed-FieldFits ed.prompt,
  closed-FieldFits (save os ed ed.prompt.bytes true).prompt,
  closed-FieldFits (set_status ed (codes "No file name") []).prompt,
)

prompt_cancel-IsBounded : (ed : Editor) → IsBounded ed → IsBounded (prompt_cancel ed)
unfolding prompt_cancel set_status
prompt_cancel-IsBounded ed b =
    ground
      (arith, closed-FieldFits ed.prompt b.prompt_in, length-status (codes "Save canceled" ++ []))

pub prompt_handle_key-IsBounded :
    (os : Os) (ed : Editor) (key : ℕ) → IsBounded ed → IsBounded (prompt_handle_key os ed key)
unfolding prompt_handle_key
prompt_handle_key-IsBounded os ed key b = ground (
  arith,
  prompt_accept-IsBounded os ed b,
  prompt_cancel-IsBounded ed b,
  apply-FieldFits ed.prompt b.prompt_in to_start,
  apply-FieldFits ed.prompt b.prompt_in to_end,
  apply-FieldFits ed.prompt b.prompt_in to_prev_char,
  apply-FieldFits ed.prompt b.prompt_in to_next_char,
  apply-FieldFits ed.prompt b.prompt_in erase_backward,
  apply-FieldFits ed.prompt b.prompt_in erase_forward,
  apply-FieldFits ed.prompt b.prompt_in erase_prev_word,
  apply-FieldFits ed.prompt b.prompt_in erase_to_end,
  apply-FieldFits ed.prompt b.prompt_in (type key),
)

pub save_command-IsBounded : (os : Os) (ed : Editor) → IsBounded ed → IsBounded (save_command os ed)
unfolding save_command prompt_save_as
save_command-IsBounded os ed b = grind (arith, save-IsBounded, blank-FieldFits)

-- The search shows its query in the status.
isearch_set_status-IsBounded :
    (ed : Editor) (failed : Bool) → IsBounded ed → IsBounded (isearch_set_status ed failed)
unfolding isearch_set_status
isearch_set_status-IsBounded ed failed b =
    set_status-IsBounded ed (isearch_prefix failed ed.isearch_forward) ed.isearch_query b

begun-IsBounded : (ed : Editor) → IsBounded ed → IsBounded (record ed { isearch_query = [] })
begun-IsBounded ed b = ground arith

pub isearch_begin-IsBounded :
    (ed : Editor) (forward : Bool) → IsBounded ed → IsBounded (isearch_begin ed forward)
unfolding isearch_begin
isearch_begin-IsBounded ed forward b =
    if_cases (λ x. IsBounded (isearch_set_status (record x { isearch_forward = forward }) false))
      ed.isearch_active
      (λ _. isearch_set_status-IsBounded (record ed { isearch_forward = forward }) false b)
      (λ _.
        isearch_set_status-IsBounded
          (record ed {
            isearch_active = true;
            isearch_query = [];
            isearch_origin = ed.frame;
            isearch_has_match = false;
            isearch_forward = forward;
          })
          false (begun-IsBounded ed b))

module _ (ed : Editor) (b : IsBounded ed) where
  by_target-IsBounded :
      (target : Option Frame)
      → IsBounded (elim target [
        | some found ↦
            isearch_set_status (record ed { frame = found; isearch_has_match = true }) false
        | none ↦ isearch_set_status (record ed { isearch_has_match = false }) true
      ])
  by_target-IsBounded none =
      isearch_set_status-IsBounded (record ed { isearch_has_match = false }) true b
  by_target-IsBounded (some found) =
      isearch_set_status-IsBounded (record ed { frame = found; isearch_has_match = true }) false b

  isearch_find-IsBounded : (repeat : Bool) → IsBounded (isearch_find ed repeat)
  unfolding isearch_find
  isearch_find-IsBounded repeat =
      if_cases IsBounded (length ed.isearch_query == 0)
        (λ _.
          isearch_set_status-IsBounded
            (record ed { frame = ed.isearch_origin; isearch_has_match = false }) false b)
        (λ _. by_target-IsBounded (isearch_target ed repeat))

  isearch_finish-IsBounded : (restore : Bool) → IsBounded (isearch_finish ed restore)
  unfolding isearch_finish
  isearch_finish-IsBounded restore = ground arith

isearch_backspace-IsBounded : (ed : Editor) → IsBounded ed → IsBounded (isearch_backspace ed)
unfolding isearch_backspace
isearch_backspace-IsBounded ed b = grind (arith, isearch_find-IsBounded, length-take {0})

isearch_type-IsBounded : (ed : Editor) (key : ℕ) → IsBounded ed → IsBounded (isearch_type ed key)
unfolding isearch_type
isearch_type-IsBounded ed key b = grind (arith, isearch_find-IsBounded, length-append {0})

pub isearch_handle_key-IsBounded :
    (ed : Editor) (key : ℕ) → IsBounded ed → IsBounded (isearch_handle_key ed key).1
unfolding isearch_handle_key
isearch_handle_key-IsBounded ed key b = ground (
  arith,
  isearch_finish-IsBounded ed b true,
  isearch_finish-IsBounded ed b false,
  isearch_find-IsBounded (record ed { isearch_forward = true }) b true,
  isearch_find-IsBounded (record ed { isearch_forward = false }) b true,
  isearch_backspace-IsBounded ed b,
  isearch_type-IsBounded ed key b,
)
