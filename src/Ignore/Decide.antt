-- ===== src/Ignore/Decide.antt =====
-- What a scan of src/finder.c does with the rules.
use ved.Common.{
  ℕ, ◌≡◌, refl, sym, ap, ◌∙◌, none, some, append_assoc, append-nil, true, false, List, [], ◌∷◌,
  ◌++◌, if_cases, length, take,
}
use ved.Text.{c_string, codes, getlines}
use ved.Os.{Os, Tree, file, dir, locked, special, Entries, nil, entry}
use ved.Ignore.{
  IgnoreRule, is_ignored, ScanState, scan_dir, scan_tree, scan_entries, load_gitignore, add_rules,
  parse_gitignore_line, chop, find_entry, truncate, is_skipped, entry_path,
}

-- The list of rules that a list starts with.
take-own : {A : Type 0} (xs ys : List A) → take (length xs) (xs ++ ys) ≡ xs
take-own [] ys = refl
take-own (x ∷ xs) ys = ap (x ∷◌) (take-own xs ys)

add_rules-take :
    (list more : List IgnoreRule) (base : List ℕ) (lines : List (List ℕ))
    → take (length list) (add_rules (list ++ more) base lines) ≡ list
unfolding add_rules
add_rules-take list more base [] = take-own list more
add_rules-take list more base (line ∷ rest) =
    elim (parse_gitignore_line (c_string (chop line)) base)
      as (λ r.
        take (length list) (
          add_rules (elim r [ none ↦ list ++ more | some rule ↦ (list ++ more) ++ rule ∷ [] ]) base
            rest)
        ≡ list) [
          | none ↦ add_rules-take list more base rest
          | some rule ↦
              rw (append_assoc list more (rule ∷ []))
                (add_rules-take list (more ++ rule ∷ []) base rest)
        ]

pub load_gitignore-take :
    (es : Entries) (base : List ℕ) (list : List IgnoreRule)
    → take (length list) (load_gitignore es base list) ≡ list
unfolding load_gitignore
load_gitignore-take es base list =
    elim (find_entry (codes ".gitignore") es)
      as (λ o.
        take (length list) (elim o [
          | some (file (some contents)) ↦ add_rules list base (getlines contents)
          | _ ↦ list
        ])
        ≡ list) [
          | some (file (some contents)) ↦
              ap (λ l. take (length list) (add_rules l base (getlines contents)))
                (sym (append-nil list))
              ∙ add_rules-take list [] base (getlines contents)
          | some (file none) ↦ same
          | some (dir _) ↦ same
          | some (locked _) ↦ same
          | some special ↦ same
          | none ↦ same
        ]
  where
    same : take (length list) list ≡ list
    same = ap (take (length list)) (sym (append-nil list)) ∙ take-own list []

module _ (os : Os) where
  scan_dir-rules :
      (es : Entries) (dir_rel : List ℕ) (st : ScanState) (scan : ScanState → ScanState)
      → ((s : ScanState) → (scan s).rules ≡ s.rules)
      → (scan_dir os es dir_rel st scan).rules ≡ st.rules
  unfolding truncate
  scan_dir-rules es dir_rel st scan keeps =
      ap (take (length st.rules)) (keeps _) ∙ load_gitignore-take es dir_rel st.rules

  mutual
    unfolding scan_tree scan_entries

    scan_tree-rules :
        (t : Tree) (rel : List ℕ) (st : ScanState) → (scan_tree os t rel st).rules ≡ st.rules
    scan_tree-rules (file contents) rel st =
        if_cases (λ s. ScanState.rules s ≡ st.rules) (is_ignored os st.rules rel false) (λ _. refl)
          (λ _. refl)
    scan_tree-rules (dir es) rel st =
        if_cases (λ s. ScanState.rules s ≡ st.rules) (is_ignored os st.rules rel true) (λ _. refl)
          (λ _. scan_dir-rules es rel st (scan_entries os es rel) (scan_entries-rules es rel))
    scan_tree-rules (locked es) rel st =
        if_cases (λ s. ScanState.rules s ≡ st.rules) (is_ignored os st.rules rel true) (λ _. refl)
          (λ _. scan_dir-rules es rel st (λ s. s) (λ s. refl))
    scan_tree-rules special rel st = refl

    scan_entries-rules :
        (es : Entries) (dir_rel : List ℕ) (st : ScanState)
        → (scan_entries os es dir_rel st).rules ≡ st.rules
    scan_entries-rules nil dir_rel st = refl
    scan_entries-rules (entry name t es) dir_rel st =
        scan_entries-rules es dir_rel _
        ∙ if_cases (λ s. ScanState.rules s ≡ st.rules) (is_skipped name) (λ _. refl)
            (λ _. scan_tree-rules t (entry_path dir_rel name) st)

  -- The scan of a tree, and of the entries of a directory, leaves the list of rules as it was: the
  -- rules of the `.gitignore` files below are taken off again, so they hold for no path beside or
  -- above their directories.
  scan-keeps_rules :
      (t : Tree) (es : Entries) (rel : List ℕ) (st : ScanState)
      → ((scan_tree os t rel st).rules ≡ st.rules) × ((scan_entries os es rel st).rules ≡ st.rules)
  scan-keeps_rules t es rel st = (scan_tree-rules t rel st, scan_entries-rules es rel st)
