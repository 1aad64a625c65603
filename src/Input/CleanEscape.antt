-- ===== src/Input/CleanEscape.antt =====
-- The finder, the mouse and the escape sequences of src/input.c and src/finder.c keep the lines and
-- the kill ring clean.
use ved.Common.{ℕ, Option, none, some, List, [], arith, if_cases}
use ved.Text.{codes}
use ved.Os.{Os}
use ved.Buffer.{init_syntax}
use ved.Buffer.Clean.{delete_region-CleanLines}
use ved.Buffer.CleanFile.{HoldsBytes, load_file-CleanLines}
use ved.KillRing.{current, rotate}
use ved.KillRing.Clean.{rotate-CleanRing, current-CleanEntry}
use ved.Editor.{Editor, EscState, set_status, touch}
use ved.Finder.{
  open_path, open_file, finder_handle_key, open_finder, close, selected_file, root_bytes,
}
use ved.Paths.{path_join}
use ved.Mouse.{handle_mouse_event, wheel_up, wheel_down, button_press, button_release, drag}
use ved.Mouse.Cases.{handle_mouse_event-cases}
use ved.Region.{copy_region}
use ved.Region.Clean.{IsClean, yank_from-IsClean, copy_region-IsClean}
use ved.Input.Meta.{
  lower_key, handle_meta_key, prompt_meta_key, edit_meta_key, copy_command, yank_pop,
  yank_pop_command,
}
use ved.Input.Escape.{escape_in, seen_key, csi_key, mouse_key, keep_byte, arrow_key, leave_escape}
use ved.Input.Clean.{set_status-IsClean, kill_word_forward-IsClean, kill_word_backward-IsClean}

-- A file opened in the finder.
module _ (os : Os) (bytes : HoldsBytes os) (ed : Editor) (h : IsClean ed) where
  open_path-IsClean : (name full_path : List ℕ) → IsClean (open_path os name full_path ed)
  unfolding open_path set_status init_syntax
  open_path-IsClean name full_path =
      if_cases IsClean (os.access_ok full_path)
        (λ _. (load_file-CleanLines os ed.buffer full_path bytes h.0, h.1)) (λ _. h)

  by_selected-IsClean :
      (name : Option (List ℕ))
      → IsClean (elim name [
        | none ↦ ed
        | some name ↦ open_path os name (path_join (root_bytes ed.finder.project_root) name) ed
      ])
  by_selected-IsClean none = h
  by_selected-IsClean (some name) = open_path-IsClean name _

  open_file-IsClean : IsClean (open_file os ed)
  unfolding open_file
  open_file-IsClean = by_selected-IsClean (selected_file ed.finder)

  pub finder_handle_key-IsClean : (key : ℕ) → IsClean (finder_handle_key os ed key)
  unfolding finder_handle_key close
  finder_handle_key-IsClean key = ground (arith, open_file-IsClean)

open_finder-IsClean : (os : Os) (ed : Editor) → IsClean ed → IsClean (open_finder os ed)
unfolding open_finder
open_finder-IsClean os ed h = grind (arith, set_status-IsClean)

module _ (ed : Editor) (h : IsClean ed) where
  handle_mouse_event-IsClean :
      (seq : List ℕ) (type : ℕ) → IsClean (handle_mouse_event ed seq type).1
  unfolding wheel_up wheel_down button_press button_release drag
  handle_mouse_event-IsClean seq type =
      handle_mouse_event-cases (λ ed'. IsClean ed') ed h (ground arith) (ground arith) (λ x y. h)
        (λ x y. h) (λ x y. h) seq type

  copy_command-IsClean : IsClean (copy_command ed)
  unfolding copy_command
  copy_command-IsClean = ground (
    arith,
    copy_region-IsClean ed h,
    set_status-IsClean (copy_region ed).1 (codes "Copied") [],
    set_status-IsClean (copy_region ed).1 (codes "No region") [],
  )

  yank_pop-IsClean : IsClean (yank_pop ed)
  unfolding yank_pop
  yank_pop-IsClean =
      let ring = rotate ed.kill_ring in
      let clean = rotate-CleanRing ed.kill_ring h.1 in
      yank_from-IsClean _ (current ring) (current-CleanEntry ring clean)
        (delete_region-CleanLines ed.buffer h.0 _ _ _ _, clean)

  yank_pop_command-IsClean : IsClean (yank_pop_command ed).editor
  unfolding yank_pop_command
  yank_pop_command-IsClean = grind (arith, yank_pop-IsClean)

  prompt_meta_key-IsClean : (os : Os) (key : ℕ) → IsClean (prompt_meta_key os ed key).editor
  unfolding prompt_meta_key
  prompt_meta_key-IsClean os key = ground (arith, open_finder-IsClean os ed h)

  handle_meta_key-IsClean : (os : Os) (key : ℕ) → IsClean (handle_meta_key os ed key).editor
  unfolding handle_meta_key edit_meta_key touch lower_key
  handle_meta_key-IsClean os key = ground (
    arith,
    prompt_meta_key-IsClean os (lower_key key),
    open_finder-IsClean os ed h,
    kill_word_forward-IsClean ed h,
    kill_word_backward-IsClean ed h,
    copy_command-IsClean,
    yank_pop_command-IsClean,
  )

  arrow_key-IsClean : (key : ℕ) → IsClean (arrow_key ed key)
  unfolding arrow_key
  arrow_key-IsClean key = ground arith

  keep_byte-IsClean : (key : ℕ) → IsClean (keep_byte ed key)
  unfolding keep_byte
  keep_byte-IsClean key = ground arith

pub escape_in-IsClean :
    (st : EscState) (os : Os) (ed : Editor) (key : ℕ)
    → IsClean ed
    → IsClean (escape_in st os ed key).editor
unfolding escape_in seen_key csi_key mouse_key
escape_in-IsClean st os ed key h = ground (
  arith,
  handle_meta_key-IsClean (leave_escape ed) h os key,
  arrow_key-IsClean (leave_escape ed) h key,
  keep_byte-IsClean ed h key,
  open_finder-IsClean os (leave_escape ed) h,
  handle_mouse_event-IsClean (leave_escape ed) h ed.esc_buf key,
)
