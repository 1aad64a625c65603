-- ===== src/Input/SearchCancel.antt =====
-- The search of src/input.c that is cancelled puts the cursor back.
use ved.Common.{ℕ, ◌≤◌, ◌≡◌, ◌⊎◌, refl, Bool, false, true, List, [], ◌∷◌, ◌++◌, arith}
use ved.Os.{Os}
use ved.Buffer.{Buffer}
use ved.Frame.{Frame}
use ved.Editor.{Editor, esc_none, set_status}
use ved.Finder.{ctrl}
use ved.Isearch.{
  isearch_begin, isearch_set_status, isearch_finish, isearch_find, isearch_backspace, isearch_type,
  isearch_handle_key,
}
use ved.Input.Flags.{finish, done}
use ved.Input.Escape.{handle_escape}
use ved.Input.{text_key, plain_key, unescaped_key, editor_process_key, process_keys}

-- A search is active that began in this buffer at this position, and it gets the next key.
record IsFrom (b : Buffer) (f : Frame) (ed : Editor) : Type 0 where
  active : ed.isearch_active ≡ true
  from : ed.isearch_origin ≡ f
  same : ed.buffer ≡ b
  no_finder : ed.finder.active ≡ false
  no_escape : ed.esc_state ≡ esc_none

-- A key that goes on with the search: `C-s`, `C-r`, backspace, or a byte of the query.
abbrev pub GoesOn : ℕ → Type 0
GoesOn key = (key ≡ ctrl b's') ⊎ (key ≡ ctrl b'r') ⊎ (key ≡ ctrl b'h') ⊎ (32 ≤ key)

abbrev pub AllGoOn : List ℕ → Type 0
AllGoOn [] = Unit
AllGoOn (key ∷ keys) = GoesOn key × AllGoOn keys

module _ (b : Buffer) (f : Frame) where
  isearch_find-IsFrom :
      (ed : Editor) (repeat : Bool) → IsFrom b f ed → IsFrom b f (isearch_find ed repeat)
  unfolding isearch_find isearch_set_status set_status
  isearch_find-IsFrom ed repeat s = ground arith

  handle_key-handled :
      (ed : Editor) (key : ℕ) → IsFrom b f ed → GoesOn key → (isearch_handle_key ed key).0 ≡ true
  unfolding isearch_handle_key
  handle_key-handled ed key s g = ground arith

  handle_key-IsFrom :
      (ed : Editor) (key : ℕ)
      → IsFrom b f ed
      → GoesOn key
      → IsFrom b f (isearch_handle_key ed key).1
  unfolding isearch_handle_key isearch_backspace isearch_type
  handle_key-IsFrom ed key s g = grind (arith, isearch_find-IsFrom)

  -- The search gets the key.
  searched :
      (os : Os) (ed : Editor) (key : ℕ)
      → IsFrom b f ed
      → (isearch_handle_key ed key).0 ≡ true
      → editor_process_key os ed key ≡ finish (done (isearch_handle_key ed key).1)
  unfolding editor_process_key handle_escape unescaped_key
  searched os ed key s h = ground arith

  key-IsFrom :
      (os : Os) (ed : Editor) (key : ℕ)
      → IsFrom b f ed
      → GoesOn key
      → IsFrom b f (editor_process_key os ed key)
  unfolding finish
  key-IsFrom os ed key s g =
      let k = handle_key-IsFrom ed key s g in
      rw (searched os ed key s (handle_key-handled ed key s g)) (record {
        active = k.active;
        from = k.from;
        same = k.same;
        no_finder = k.no_finder;
        no_escape = k.no_escape;
      })

  cancelled :
      (os : Os) (ed : Editor)
      → IsFrom b f ed
      → let after = editor_process_key os ed (ctrl b'g') in
        (after.frame ≡ f) × (after.buffer ≡ b) × (after.isearch_active ≡ false)
  unfolding finish isearch_handle_key isearch_finish
  cancelled os ed s =
      let after = (isearch_handle_key ed (ctrl b'g')).1 in
      let ended : (after.frame ≡ f) × (after.buffer ≡ b) × (after.isearch_active ≡ false) =
        ground arith in
      let handled : (isearch_handle_key ed (ctrl b'g')).0 ≡ true = ground arith in
      rw (searched os ed (ctrl b'g') s handled) ended

  keys-IsFrom :
      (os : Os) (keys : List ℕ) (ed : Editor)
      → IsFrom b f ed
      → AllGoOn keys
      → IsFrom b f (process_keys os ed keys)
  unfolding process_keys
  keys-IsFrom os [] ed s g = s
  keys-IsFrom os (key ∷ keys) ed s (g, more) =
      keys-IsFrom os keys (editor_process_key os ed key) (key-IsFrom os ed key s g) more

-- No sequence, box, search or `C-x` is open: the next key is a command.
pub record IsIdle (ed : Editor) : Type 0 where
  pub no_escape : ed.esc_state ≡ esc_none
  pub no_finder : ed.finder.active ≡ false
  pub no_search : ed.isearch_active ≡ false
  pub no_prompt : ed.prompt_active ≡ false
  pub no_ctrl_x : ed.pending_ctrl_x ≡ false

-- `C-s` and `C-r` in such a state.
begun :
    (os : Os) (ed : Editor) (key : ℕ)
    → IsIdle ed
    → (key ≡ ctrl b's') ⊎ (key ≡ ctrl b'r')
    → IsFrom ed.buffer ed.frame (editor_process_key os ed key)
unfolding editor_process_key handle_escape unescaped_key isearch_handle_key plain_key text_key
    finish isearch_begin isearch_set_status set_status
begun os ed key i k = ground arith

process_keys-append :
    (os : Os) (keys more : List ℕ) (ed : Editor)
    → process_keys os ed (keys ++ more) ≡ process_keys os (process_keys os ed keys) more
unfolding process_keys
process_keys-append os [] more ed = refl
process_keys-append os (key ∷ keys) more ed =
    process_keys-append os keys more (editor_process_key os ed key)

-- A search that is begun by `C-s` or `C-r` where the next key is a command, goes on with any such
-- keys, backspaces and bytes of the query, and is cancelled by `C-g` leaves the cursor where it was
-- and the buffer as it was, and is over.
pub search_cancel :
    (os : Os) (ed : Editor) (key : ℕ) (keys : List ℕ)
    → IsIdle ed
    → (key ≡ ctrl b's') ⊎ (key ≡ ctrl b'r')
    → AllGoOn keys
    → let after = process_keys os ed (key ∷ keys ++ ctrl b'g' ∷ []) in
      (after.frame ≡ ed.frame) × (after.buffer ≡ ed.buffer) × (after.isearch_active ≡ false)
unfolding process_keys
search_cancel os ed key keys i k g =
    let first = editor_process_key os ed key in
    rw (process_keys-append os keys (ctrl b'g' ∷ []) first) (
      cancelled ed.buffer ed.frame os (process_keys os first keys)
        (keys-IsFrom ed.buffer ed.frame os keys first (begun os ed key i k) g))
