-- ===== src/Input/Quiet.antt =====
-- The escape sequences of src/input.c and the flags of the last command: while a sequence is being
-- read, `editor_process_key` has forgotten that the last command was a kill or a yank.
use ved.Common.{
  ℕ, Bool, true, false, ◌≡◌, refl, ap, ◌∙◌, ◌⊎◌, inl, inr, List, arith, Bool-cases, ◌==◌, if_cases,
}
use ved.Os.{Os}
use ved.Editor.{Editor, esc_none, set_status, touch, Finder}
use ved.Finder.{finder_handle_key, open_file, open_path, open_finder, close}
use ved.Isearch.{
  isearch_begin, isearch_handle_key, isearch_find, isearch_finish, isearch_set_status,
  isearch_backspace, isearch_type,
}
use ved.Region.{kill_region, kill_text, kill_newline_and_next, yank, yank_from}
use ved.Input.Flags.{finish}
use ved.Input.Command.{
  handle_command, mark_command, open_line, kill_line, kill_region_command, yank_command, backspace,
  split_line, tab, delete_forward_command, type_key, save_command,
}
use ved.Input.Prompt.{save, prompt_save_as, prompt_accept, prompt_cancel, prompt_handle_key}
use ved.Input.{cancel, text_key, ctrl_x_key, plain_key, unescaped_key}

esc-open_path :
    (os : Os) (name path : List ℕ) (ed : Editor)
    → (open_path os name path ed).esc_state ≡ ed.esc_state
unfolding open_path set_status
esc-open_path os name path ed = ground arith

esc-open_file : (os : Os) (ed : Editor) → (open_file os ed).esc_state ≡ ed.esc_state
unfolding open_file set_status
esc-open_file os ed = ground arith

pub esc-open_finder : (os : Os) (ed : Editor) → (open_finder os ed).esc_state ≡ ed.esc_state
unfolding open_finder set_status
esc-open_finder os ed = ground arith

esc-finder_handle_key :
    (os : Os) (ed : Editor) (key : ℕ) → (finder_handle_key os ed key).esc_state ≡ ed.esc_state
unfolding finder_handle_key close
esc-finder_handle_key os ed key = ground (arith, esc-open_file os ed)

esc-isearch_find : (ed : Editor) (repeat : Bool) → (isearch_find ed repeat).esc_state ≡ ed.esc_state
unfolding isearch_find isearch_set_status set_status
esc-isearch_find ed repeat = ground arith

esc-isearch_handle_key :
    (ed : Editor) (key : ℕ) → (isearch_handle_key ed key).1.esc_state ≡ ed.esc_state
unfolding isearch_handle_key isearch_finish isearch_backspace isearch_type
esc-isearch_handle_key ed key = grind (arith, esc-isearch_find)

-- A key that the search does not handle ends it.
pub isearch_handle_key-passed :
    (ed : Editor) (key : ℕ)
    → (isearch_handle_key ed key).0 ≡ false
    → (isearch_handle_key ed key).1.isearch_active ≡ false
unfolding isearch_handle_key isearch_finish
isearch_handle_key-passed ed key h = ground arith

finder-isearch_find : (ed : Editor) (repeat : Bool) → (isearch_find ed repeat).finder ≡ ed.finder
unfolding isearch_find isearch_set_status set_status
finder-isearch_find ed repeat = ground arith

pub finder-isearch_handle_key :
    (ed : Editor) (key : ℕ) → (isearch_handle_key ed key).1.finder ≡ ed.finder
unfolding isearch_handle_key isearch_finish isearch_backspace isearch_type
finder-isearch_handle_key ed key = grind (arith, finder-isearch_find)

pub esc-kill_newline_and_next : (ed : Editor) → (kill_newline_and_next ed).esc_state ≡ ed.esc_state
unfolding kill_newline_and_next
esc-kill_newline_and_next ed = ground arith

esc-kill_region : (ed : Editor) → (kill_region ed).1.esc_state ≡ ed.esc_state
unfolding kill_region kill_text touch
esc-kill_region ed = ground arith

esc-yank : (ed : Editor) → (yank ed).1.esc_state ≡ ed.esc_state
unfolding yank yank_from touch
esc-yank ed = ground arith

esc-handle_command :
    (ed : Editor) (key : ℕ) → (handle_command ed key).editor.esc_state ≡ ed.esc_state
unfolding handle_command mark_command open_line kill_line kill_region_command yank_command backspace
    split_line tab delete_forward_command type_key set_status touch
esc-handle_command ed key =
    ground (arith, esc-kill_newline_and_next ed, esc-kill_region ed, esc-yank ed)

esc-save :
    (os : Os) (ed : Editor) (path : List ℕ) (rename : Bool)
    → (save os ed path rename).esc_state ≡ ed.esc_state
unfolding save set_status
esc-save os ed path rename = ground arith

esc-prompt_handle_key :
    (os : Os) (ed : Editor) (key : ℕ) → (prompt_handle_key os ed key).esc_state ≡ ed.esc_state
unfolding prompt_handle_key prompt_cancel prompt_accept set_status
esc-prompt_handle_key os ed key = ground (arith, esc-save os ed ed.prompt.bytes true)

esc-text_key : (ed : Editor) (key : ℕ) → (text_key ed key).esc_state ≡ ed.esc_state
unfolding text_key finish isearch_begin isearch_set_status set_status
esc-text_key ed key = ground (arith, esc-handle_command ed key)

esc-save_command : (os : Os) (ed : Editor) → (save_command os ed).esc_state ≡ ed.esc_state
unfolding save_command prompt_save_as
esc-save_command os ed = grind (arith, esc-save)

esc-ctrl_x_key : (os : Os) (ed : Editor) (key : ℕ) → (ctrl_x_key os ed key).esc_state ≡ ed.esc_state
unfolding ctrl_x_key finish
esc-ctrl_x_key os ed key =
    let ed' = record ed { pending_ctrl_x = false } in
    ground (arith, esc-text_key ed' key, esc-save_command os ed')

-- No sequence is being read; or one is, and then the last command was no kill and no yank, and
-- neither the finder nor the search is open.
pub record IsReading (ed : Editor) : Type 0 where
  pub no_kill : ed.last_was_kill ≡ false
  pub no_yank : ed.last_was_yank ≡ false
  pub no_finder : ed.finder.active ≡ false
  pub no_search : ed.isearch_active ≡ false

abbrev pub IsQuiet : Editor → Type 0
IsQuiet ed = (ed.esc_state ≡ esc_none) ⊎ IsReading ed

plain_key-IsQuiet :
    (os : Os) (ed : Editor) (key : ℕ)
    → ed.esc_state ≡ esc_none
    → ed.finder.active ≡ false
    → ed.isearch_active ≡ false
    → IsQuiet (plain_key os ed key)
unfolding plain_key cancel set_status finish
plain_key-IsQuiet os ed key e f s = elim (Bool-cases (key == 27)) [
  | inl k ↦ rw k (inr (record { no_kill = refl; no_yank = refl; no_finder = f; no_search = s }))
  | inr k ↦ rw k (
      inl (
        ground
          (arith, esc-prompt_handle_key os ed key, esc-ctrl_x_key os ed key, esc-text_key ed key)))
]

pub unescaped_key-IsQuiet :
    (os : Os) (ed : Editor) (key : ℕ) → ed.esc_state ≡ esc_none → IsQuiet (unescaped_key os ed key)
unfolding unescaped_key finish
unescaped_key-IsQuiet os ed key e =
    if_cases IsQuiet ed.finder.active (λ f. inl (esc-finder_handle_key os ed key ∙ e))
      (λ f.
        if_cases IsQuiet (isearch_handle_key ed key).0
          (λ s. inl (esc-isearch_handle_key ed key ∙ e))
          (λ s.
            plain_key-IsQuiet os (isearch_handle_key ed key).1 key
              (esc-isearch_handle_key ed key ∙ e)
              (ap (λ fd. Finder.active fd) (finder-isearch_handle_key ed key) ∙ f)
              (isearch_handle_key-passed ed key s)))
