-- ===== src/Finder/Listed.antt =====
-- What the list of src/finder.c holds: the matches of the query, whatever keys are typed.
use ved.Common.{ℕ, ◌≤◌, ◌<◌, ◌≡◌, ◌⊎◌, refl, false, arith, length, leb, ◌==◌, not, if_cases}
use ved.Common.Int.{ℤ, pos, negsuc}
use ved.Os.{Os}
use ved.Field.{Field}
use ved.Field
use ved.Fuzzy.{matching_files}
use ved.Editor.{Editor, Finder, set_status}
use ved.Finder.Bounds.{list_rows-in, moved_selection-in}
use ved.Finder.{
  ctrl, key_backspace, list_rows, update_matches, adjust_scroll, move_selection, query_delete_range,
  query_backspace, query_delete_forward, query_delete_prev_word, query_kill_to_end, query_insert,
  open_path, open_file, open_finder, close, finder_handle_key,
}

-- The list holds the matches of the query among the files, the selection is one of them if there is
-- one, and the list is not scrolled past it.
pub record IsListed (fd : Finder) : Type 0 where
  pub fresh : fd.matches ≡ matching_files fd.query.bytes fd.files
  pub selected : (length fd.matches ≡ 0) ⊎ (fd.selection < length fd.matches)
  pub scrolled : fd.scroll ≤ fd.selection

pub update_matches-IsListed : (fd : Finder) → IsListed (update_matches fd)
unfolding update_matches
update_matches-IsListed fd = record {
  fresh = refl;
  selected = ground arith;
  scrolled = omega arith;
}

move_selection-IsListed :
    (rows : ℕ) (delta : ℤ) (fd : Finder)
    → 0 < rows
    → IsListed fd
    → IsListed (move_selection rows delta fd)
unfolding move_selection adjust_scroll
move_selection-IsListed rows delta fd r v =
    ground (arith, moved_selection-in delta fd.selection (length fd.matches))

query_delete_range-IsListed :
    (fd : Finder) (start end : ℕ) → IsListed fd → IsListed (query_delete_range fd start end)
unfolding query_delete_range
query_delete_range-IsListed fd start end v =
    if_cases IsListed (Field.is_range fd.query start end)
      (λ _. update_matches-IsListed (record fd { query = Field.delete_range fd.query start end }))
      (λ _. v)

query_insert-IsListed : (fd : Finder) (key : ℕ) → IsListed fd → IsListed (query_insert fd key)
unfolding query_insert
query_insert-IsListed fd key v = grind (arith, update_matches-IsListed)

query_backspace-IsListed : (fd : Finder) → IsListed fd → IsListed (query_backspace fd)
unfolding query_backspace
query_backspace-IsListed fd v = grind (arith, query_delete_range-IsListed)

query_delete_forward-IsListed : (fd : Finder) → IsListed fd → IsListed (query_delete_forward fd)
unfolding query_delete_forward
query_delete_forward-IsListed fd v = grind (arith, query_delete_range-IsListed)

query_delete_prev_word-IsListed : (fd : Finder) → IsListed fd → IsListed (query_delete_prev_word fd)
unfolding query_delete_prev_word
query_delete_prev_word-IsListed fd v = grind (arith, query_delete_range-IsListed)

query_kill_to_end-IsListed : (fd : Finder) → IsListed fd → IsListed (query_kill_to_end fd)
unfolding query_kill_to_end
query_kill_to_end-IsListed fd v = query_delete_range-IsListed fd _ _ v

-- A move of the cursor in the query.
moved-IsListed :
    (fd : Finder) (query : Field)
    → query.bytes ≡ fd.query.bytes
    → IsListed fd
    → IsListed (record fd { query = query })
moved-IsListed fd query e v = record {
  fresh = rw e v.fresh;
  selected = v.selected;
  scrolled = v.scrolled;
}

finder-open_file : (os : Os) (ed : Editor) → (open_file os ed).finder ≡ ed.finder
unfolding open_file open_path set_status
finder-open_file os ed = ground arith

-- Opening the finder lists the matches of the empty query.
open_finder-IsListed :
    (os : Os) (ed : Editor) → IsListed ed.finder → IsListed (open_finder os ed).finder
unfolding open_finder set_status
open_finder-IsListed os ed v = grind (arith, update_matches-IsListed)

closed : (fd : Finder) → IsListed fd → IsListed (record fd { active = false })
closed fd v = record { fresh = v.fresh; selected = v.selected; scrolled = v.scrolled }

-- Every key of the finder keeps this: the list holds the matches of the query that is shown, the
-- selection is one of them if there is one, and the list is not scrolled past it.
pub finder_handle_key-IsListed :
    (os : Os) (ed : Editor) (key : ℕ)
    → IsListed ed.finder
    → IsListed (finder_handle_key os ed key).finder
unfolding finder_handle_key close Field.move_start Field.move_end Field.move_prev_char
    Field.move_next_char
finder_handle_key-IsListed os ed key v =
    let P : Editor → Type 0 = λ after. IsListed after.finder in
    let fd = ed.finder in
    let rows : 0 < list_rows ed = omega (arith, list_rows-in ed) in
    if_cases P (not fd.active) (λ _. v)
      (λ _.
        if_cases P (key == ctrl b'g') (λ _. closed fd v)
          (λ _.
            if_cases P (key == 13)
              (λ _. closed (open_file os ed).finder (rw (finder-open_file os ed) v))
              (λ _.
                if_cases P (key == key_backspace) (λ _. query_backspace-IsListed fd v)
                  (λ _.
                    if_cases P (key == ctrl b'h') (λ _. query_backspace-IsListed fd v)
                      (λ _.
                        if_cases P (key == ctrl b'p')
                          (λ _. move_selection-IsListed (list_rows ed) (negsuc 0) fd rows v)
                          (λ _.
                            if_cases P (key == ctrl b'n')
                              (λ _. move_selection-IsListed (list_rows ed) (pos 1) fd rows v)
                              (λ _.
                                if_cases P (key == ctrl b'a')
                                  (λ _. moved-IsListed fd (Field.move_start fd.query) refl v)
                                  (λ _.
                                    if_cases P (key == ctrl b'e')
                                      (λ _. moved-IsListed fd (Field.move_end fd.query) refl v)
                                      (λ _.
                                        if_cases P (key == ctrl b'b')
                                          (λ _.
                                            moved-IsListed fd (Field.move_prev_char fd.query) refl
                                              v)
                                          (λ _.
                                            if_cases P (key == ctrl b'f')
                                              (λ _.
                                                moved-IsListed fd (Field.move_next_char fd.query)
                                                  refl v)
                                              (λ _.
                                                if_cases P (key == ctrl b'd')
                                                  (λ _. query_delete_forward-IsListed fd v)
                                                  (λ _.
                                                    if_cases P (key == ctrl b'w')
                                                      (λ _. query_delete_prev_word-IsListed fd v)
                                                      (λ _.
                                                        if_cases P (key == ctrl b'k')
                                                          (λ _. query_kill_to_end-IsListed fd v)
                                                          (λ _.
                                                            if_cases P (leb 32 key)
                                                            (λ _. query_insert-IsListed fd key v)
                                                            (λ _. v)))))))))))))))
