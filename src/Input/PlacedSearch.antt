-- ===== src/Input/PlacedSearch.antt =====
-- The search of src/input.c keeps the cursor on a row of the buffer.
use ved.Common.{
  ℕ, not, length, leb, ltb, ◌+◌, ◌++◌, ◌≡◌, refl, Bool, false, true, ◌⊎◌, inl, inr, Option, none,
  some, [], ◌∷◌, arith, ◌==◌, ◌||◌, if_cases,
}
use ved.Frame.Rows.{OnRow}
use ved.Frame.{Frame}
use ved.Search.Rows.{Found, search_forward_from-Found, search_backward_from-Found}
use ved.Editor.{Editor, set_status}
use ved.Isearch.{
  isearch_set_status, isearch_finish, search_start, isearch_target, isearch_find, isearch_backspace,
  isearch_type, isearch_handle_key,
}
use ved.Finder.{ctrl, key_backspace}

-- A position on a row to which a search can return, while the finder is closed.
abbrev pub Searching : Editor → Type 0
Searching ed = OnRow ed.buffer ed.isearch_origin × (ed.finder.active ≡ false)

-- The cursor is on a row of the buffer; and so is the position to which a search that is active can
-- return, and the finder is closed then.
pub record IsPlaced (ed : Editor) : Type 0 where
  pub cursor : OnRow ed.buffer ed.frame
  pub search : (ed.isearch_active ≡ false) ⊎ Searching ed

-- A search that is active goes on from a row of the buffer to a row of the buffer.
module _ (ed : Editor) (on : OnRow ed.buffer ed.frame) (s : Searching ed) where
  search_start-OnRow : (repeat : Bool) → OnRow ed.buffer (search_start ed repeat)
  unfolding search_start
  search_start-OnRow repeat = ground arith

  isearch_target-Found : (repeat : Bool) → Found ed.buffer (isearch_target ed repeat)
  unfolding isearch_target
  isearch_target-Found repeat =
      let start = search_start ed repeat in
      if_cases (Found ed.buffer) ed.isearch_forward
        (λ _.
          search_forward_from-Found ed.buffer ed.isearch_query start.row start.col
            (search_start-OnRow repeat))
        (λ _.
          search_backward_from-Found ed.buffer ed.isearch_query start.row start.col
            (search_start-OnRow repeat))

  isearch_find-IsPlaced : (repeat : Bool) → IsPlaced (isearch_find ed repeat)
  unfolding isearch_find isearch_set_status set_status
  isearch_find-IsPlaced repeat =
      if_cases IsPlaced (length ed.isearch_query == 0)
        (λ _. record { cursor = s.0; search = inr s })
        (λ _. by_target (isearch_target ed repeat) (isearch_target-Found repeat))
    where
      by_target :
          (target : Option Frame)
          → Found ed.buffer target
          → IsPlaced (elim target [
            | some found ↦
                isearch_set_status (record ed { frame = found; isearch_has_match = true }) false
            | none ↦ isearch_set_status (record ed { isearch_has_match = false }) true
          ])
      by_target none h = record { cursor = on; search = inr s }
      by_target (some found) h = record { cursor = h; search = inr s }

  isearch_finish-IsPlaced : (restore : Bool) → IsPlaced (isearch_finish ed restore)
  unfolding isearch_finish
  isearch_finish-IsPlaced restore =
      if_cases IsPlaced (not ed.isearch_active) (λ _. record { cursor = on; search = inr s })
        (λ _.
          if_cases
            (λ f. IsPlaced (record ed {
              frame = f;
              isearch_active = false;
              isearch_has_match = false;
              isearch_query = [];
              status_msg = [];
            }))
            restore (λ _. record { cursor = s.0; search = inl refl })
            (λ _. record { cursor = on; search = inl refl }))

-- The keys of a search that is active.
module _ (ed : Editor) (on : OnRow ed.buffer ed.frame) (s : Searching ed) where
  isearch_backspace-IsPlaced : IsPlaced (isearch_backspace ed)
  unfolding isearch_backspace
  isearch_backspace-IsPlaced =
      if_cases IsPlaced (length ed.isearch_query == 0) (λ _. record { cursor = on; search = inr s })
        (λ _. isearch_find-IsPlaced (record ed { isearch_query = _ }) on s false)

  isearch_type-IsPlaced : (key : ℕ) → IsPlaced (isearch_type ed key)
  unfolding isearch_type
  isearch_type-IsPlaced key =
      if_cases IsPlaced (ltb (length ed.isearch_query + 1) 256)
        (λ _.
          isearch_find-IsPlaced (record ed { isearch_query = ed.isearch_query ++ key ∷ [] }) on s
            false)
        (λ _. record { cursor = on; search = inr s })

  searching_key-IsPlaced : (key : ℕ) → IsPlaced (isearch_handle_key ed key).1
  unfolding isearch_handle_key
  searching_key-IsPlaced key =
      let P : Bool × Editor → Type 0 = λ o. IsPlaced o.1 in
      if_cases P (not ed.isearch_active) (λ _. record { cursor = on; search = inr s })
        (λ _.
          if_cases P (key == ctrl b'g') (λ _. isearch_finish-IsPlaced ed on s true)
            (λ _.
              if_cases P (key == 13) (λ _. isearch_finish-IsPlaced ed on s false)
                (λ _.
                  if_cases P (key == 27) (λ _. isearch_finish-IsPlaced ed on s false)
                    (λ _.
                      if_cases P (key == ctrl b's') (λ _. turned true)
                        (λ _.
                          if_cases P (key == ctrl b'r') (λ _. turned false)
                            (λ _.
                              if_cases P (key == key_backspace || key == ctrl b'h')
                                (λ _. isearch_backspace-IsPlaced)
                                (λ _.
                                  if_cases P (leb 32 key) (λ _. isearch_type-IsPlaced key)
                                    (λ _. isearch_finish-IsPlaced ed on s false))))))))
    where
      turned :
          (forward : Bool) → IsPlaced (isearch_find (record ed { isearch_forward = forward }) true)
      turned forward = isearch_find-IsPlaced (record ed { isearch_forward = forward }) on s true

pub isearch_handle_key-IsPlaced :
    (ed : Editor) (key : ℕ) → IsPlaced ed → IsPlaced (isearch_handle_key ed key).1
unfolding isearch_handle_key
isearch_handle_key-IsPlaced ed key p = elim p.search [
  | inl n ↦ rw n (record { cursor = p.cursor; search = inl refl })
  | inr s ↦ searching_key-IsPlaced ed p.cursor s key
]
