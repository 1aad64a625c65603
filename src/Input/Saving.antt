-- ===== src/Input/Saving.antt =====
-- The saving of src/input.c: what the editor shows as saved is in the file.
use ved.Common.{
  true_not_false, ℕ, ◌≡◌, ◌⊎◌, inl, inr, refl, sym, ap, ◌∙◌, Bool, true, Option, none, some, List,
  ◌∷◌, if_cases,
}
use ved.Os.{Os}
use ved.Buffer.{write_file}
use ved.Buffer.Saved.{file_text, write_file-contents}
use ved.Editor.{Editor, set_status}
use ved.Input.Prompt.{save, record_write}

dirty-record_write :
    (ed : Editor) (path : List ℕ) (contents : Option (List ℕ))
    → (record_write ed path contents).dirty ≡ ed.dirty
dirty-record_write ed path none = refl
dirty-record_write ed path (some c) = refl

-- A buffer with changes counts as saved only if its file was opened and holds all its lines, each
-- with its newline: after `save`, the buffer still has changes, or what was written is the whole text.
pub save_lem :
    (os : Os) (ed : Editor) (path : List ℕ) (rename : Bool)
    → ed.dirty ≡ true
    → let after = save os ed path rename in
      (after.dirty ≡ true) ⊎ (after.saved ≡ (path, file_text ed.buffer.lines) ∷ ed.saved)
unfolding save set_status
save_lem os ed path rename d =
    let contents = (write_file os ed.buffer path).1 in
    if_cases
      (λ (after : Editor).
        (after.dirty ≡ true) ⊎ (after.saved ≡ (path, file_text ed.buffer.lines) ∷ ed.saved))
      (write_file os ed.buffer path).0
      (λ t. elim (write_file-contents os ed.buffer path).1 [
        | inl f ↦ absurd (true_not_false (sym t ∙ f))
        | inr e ↦ inr (ap (λ c. (record_write ed path c).saved) e)
      ])
      (λ _. inl (dirty-record_write ed path contents ∙ d))
