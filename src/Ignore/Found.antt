-- ===== src/Ignore/Found.antt =====
-- The files that `finder_load_project` of src/finder.c finds.
use ved.Common.{
  ℕ, ◌≡◌, ◌↔◌, ◌⊎◌, inl, inr, refl, sym, ap, ◌∙◌, Bool, true, false, List, [], ◌∷◌, ◌++◌,
  append_assoc, append-nil, if◌then◌else◌, length,
}
use ved.Os.{Os, Tree, file, dir, locked, special, Entries, nil, entry}
use ved.Ignore.{
  IgnoreRule, is_ignored, ScanState, scan_dir, scan_tree, scan_entries, load_gitignore, truncate,
  is_skipped, entry_path, load_project,
}
use ved.Ignore.Decide.{load_gitignore-take}

-- The path stands in the list.
abbrev pub Listed : List ℕ → List (List ℕ) → Type 0
Listed path [] = ⊥
Listed path (p ∷ paths) = (path ≡ p) ⊎ Listed path paths

module _ (os : Os) where
  abbrev mutual
    -- The path is that of a regular file in this tree, which stands at `rel`: the rules that hold
    -- there do not ignore the file, and on the way to it each directory can be read, is not ignored
    -- by the rules that hold where it stands, and adds the rules of its own `.gitignore` behind them
    -- for what is in it.
    pub Found : List IgnoreRule → Tree → List ℕ → List ℕ → Type 0
    Found rules (file contents) rel path = (is_ignored os rules rel false ≡ false) × (path ≡ rel)
    Found rules (dir es) rel path =
        (is_ignored os rules rel true ≡ false)
        × FoundBelow (load_gitignore es rel rules) es rel path
    Found rules (locked es) rel path = ⊥
    Found rules special rel path = ⊥

    -- The same for one of the entries of a directory whose name is not passed over.
    pub FoundBelow : List IgnoreRule → Entries → List ℕ → List ℕ → Type 0
    FoundBelow rules nil dir_rel path = ⊥
    FoundBelow rules (entry name t es) dir_rel path =
        ((is_skipped name ≡ false) × Found rules t (entry_path dir_rel name) path)
        ⊎ FoundBelow rules es dir_rel path

  mutual
    -- The files of a tree in the order of the scan, from the rules that hold where it stands.
    files_in : List IgnoreRule → Tree → List ℕ → List (List ℕ)
    files_in rules (file contents) rel = if is_ignored os rules rel false then [] else rel ∷ []
    files_in rules (dir es) rel =
        if is_ignored os rules rel true
        then []
        else files_below (load_gitignore es rel rules) es rel
    files_in rules (locked es) rel = []
    files_in rules special rel = []

    files_below : List IgnoreRule → Entries → List ℕ → List (List ℕ)
    files_below rules nil dir_rel = []
    files_below rules (entry name t es) dir_rel =
        (if is_skipped name then [] else files_in rules t (entry_path dir_rel name))
        ++ files_below rules es dir_rel

  -- More files behind those that are there.
  abbrev adds : ScanState → List (List ℕ) → ScanState
  adds st paths = record st { files = st.files ++ paths }

  adds-none : (st : ScanState) → st ≡ adds st []
  adds-none st = ap (λ f. record st { files = f }) (sym (append-nil st.files))

  -- A directory's own rules are taken off again.
  scan_dir-adds :
      (es : Entries) (rel : List ℕ) (st : ScanState) (scan : ScanState → ScanState)
      (paths : List (List ℕ))
      → ((s : ScanState) → s.rules ≡ load_gitignore es rel st.rules → scan s ≡ adds s paths)
      → scan_dir os es rel st scan ≡ adds st paths
  unfolding truncate
  scan_dir-adds es rel st scan paths h =
      let loaded = record st { rules = load_gitignore es rel st.rules } in
      ap (λ s. truncate s (length st.rules)) (h loaded refl)
      ∙ ap (λ r. record { files = st.files ++ paths; rules = r })
          (load_gitignore-take es rel st.rules)

  mutual
    unfolding scan_tree scan_entries files_in files_below

    scan_tree-adds :
        (t : Tree) (rel : List ℕ) (st : ScanState)
        → scan_tree os t rel st ≡ adds st (files_in st.rules t rel)
    scan_tree-adds (file contents) rel st =
        elim (is_ignored os st.rules rel false)
          as (λ b.
            (if b then st else record st { files = st.files ++ rel ∷ [] })
            ≡ adds st (if b then [] else rel ∷ [])) [ true ↦ adds-none st | false ↦ refl ]
    scan_tree-adds (dir es) rel st =
        let inside = files_below (load_gitignore es rel st.rules) es rel in
        elim (is_ignored os st.rules rel true)
          as (λ b.
            (if b then st else scan_dir os es rel st (scan_entries os es rel))
            ≡ adds st (if b then [] else inside)) [
              | true ↦ adds-none st
              | false ↦
                  scan_dir-adds es rel st (scan_entries os es rel) inside
                    (λ s e. scan_entries-adds es rel s ∙ ap (λ r. adds s (files_below r es rel)) e)
            ]
    scan_tree-adds (locked es) rel st =
        elim (is_ignored os st.rules rel true)
          as (λ b. (if b then st else scan_dir os es rel st (λ s. s)) ≡ adds st []) [
            | true ↦ adds-none st
            | false ↦ scan_dir-adds es rel st (λ s. s) [] (λ s e. adds-none s)
          ]
    scan_tree-adds special rel st = adds-none st

    scan_entries-adds :
        (es : Entries) (dir_rel : List ℕ) (st : ScanState)
        → scan_entries os es dir_rel st ≡ adds st (files_below st.rules es dir_rel)
    scan_entries-adds nil dir_rel st = adds-none st
    scan_entries-adds (entry name t es) dir_rel st =
        let own = if is_skipped name then [] else files_in st.rules t (entry_path dir_rel name) in
        let first : (if is_skipped name then st else scan_tree os t (entry_path dir_rel name) st)
            ≡ adds st own =
          elim (is_skipped name)
            as (λ b.
              (if b then st else scan_tree os t (entry_path dir_rel name) st)
              ≡ adds st (if b then [] else files_in st.rules t (entry_path dir_rel name))) [
                | true ↦ adds-none st
                | false ↦ scan_tree-adds t (entry_path dir_rel name) st
              ] in
        ap (scan_entries os es dir_rel) first
        ∙ scan_entries-adds es dir_rel (adds st own)
        ∙ ap (λ f. record st { files = f })
            (append_assoc st.files own (files_below st.rules es dir_rel))

  root-adds :
      (es : Entries)
      → let fresh : ScanState = record { files = []; rules = [] } in
        scan_dir os es [] fresh (scan_entries os es [])
        ≡ adds fresh (files_below (load_gitignore es [] []) es [])
  root-adds es =
      scan_dir-adds es [] (record { files = []; rules = [] }) (scan_entries os es [])
        (files_below (load_gitignore es [] []) es [])
        (λ s e. scan_entries-adds es [] s ∙ ap (λ r. adds s (files_below r es [])) e)

Listed-append :
    (path : List ℕ) (xs ys : List (List ℕ))
    → Listed path (xs ++ ys) ↔ (Listed path xs ⊎ Listed path ys)
Listed-append path [] ys = (λ l. inr l, λ l. elim l [ inl none_in ↦ absurd none_in | inr l ↦ l ])
Listed-append path (x ∷ xs) ys =
    let rest = Listed-append path xs ys in
    (
      λ l. elim l [
        | inl e ↦ inl (inl e)
        | inr l ↦ elim (rest.0 l) [ inl l ↦ inl (inr l) | inr l ↦ inr l ]
      ],
      λ l. elim l [
        | inl (inl e) ↦ inl e
        | inl (inr l) ↦ inr (rest.1 (inl l))
        | inr l ↦ inr (rest.1 (inr l))
      ],
    )

Listed-unless :
    (path : List ℕ) (left_out : Bool) (xs : List (List ℕ)) (P : Type 0)
    → Listed path xs ↔ P
    → Listed path (if left_out then [] else xs) ↔ ((left_out ≡ false) × P)
Listed-unless path true xs P h = (λ l. absurd l, λ p. cc)
Listed-unless path false xs P h = (λ l. (refl, h.0 l), λ p. h.1 p.1)

Listed-one : (path rel : List ℕ) → Listed path (rel ∷ []) ↔ (path ≡ rel)
Listed-one path rel = (λ l. elim l [ inl e ↦ e | inr l ↦ absurd l ], λ e. inl e)

module _ (os : Os) (path : List ℕ) where
  mutual
    unfolding files_in files_below

    files_in-Found :
        (rules : List IgnoreRule) (t : Tree) (rel : List ℕ)
        → Listed path (files_in os rules t rel) ↔ Found os rules t rel path
    files_in-Found rules (file contents) rel =
        Listed-unless path (is_ignored os rules rel false) (rel ∷ []) (path ≡ rel)
          (Listed-one path rel)
    files_in-Found rules (dir es) rel =
        let own = load_gitignore es rel rules in
        Listed-unless path (is_ignored os rules rel true) (files_below os own es rel)
          (FoundBelow os own es rel path) (files_below-Found own es rel)
    files_in-Found rules (locked es) rel = (λ l. l, λ l. l)
    files_in-Found rules special rel = (λ l. l, λ l. l)

    files_below-Found :
        (rules : List IgnoreRule) (es : Entries) (dir_rel : List ℕ)
        → Listed path (files_below os rules es dir_rel) ↔ FoundBelow os rules es dir_rel path
    files_below-Found rules nil dir_rel = (λ l. l, λ l. l)
    files_below-Found rules (entry name t es) dir_rel =
        let rel = entry_path dir_rel name in
        let first =
          Listed-unless path (is_skipped name) (files_in os rules t rel) (Found os rules t rel path)
            (files_in-Found rules t rel) in
        let rest = files_below-Found rules es dir_rel in
        let both =
          Listed-append path (if is_skipped name then [] else files_in os rules t rel)
            (files_below os rules es dir_rel) in
        (
          λ l. elim (both.0 l) [ inl l ↦ inl (first.0 l) | inr l ↦ inr (rest.0 l) ],
          λ p. both.1 (elim p [ inl p ↦ inl (first.1 p) | inr p ↦ inr (rest.1 p) ]),
        )

-- Where a directory stands at the project's root, the files that `finder_load_project` lists are
-- those of the tree below it whose way no rule bars: at each directory on the way, and at the file,
-- the rules of the `.gitignore` files from the root down to the directory that it stands in, and no
-- others, decide that it is not ignored; no name on the way is `.`, `..` or `.git`; and each
-- directory can be read.
pub load_project-Found :
    (os : Os) (root path : List ℕ) (es : Entries)
    → os.tree_at root ≡ dir es
    → Listed path (load_project os root) ↔ FoundBelow os (load_gitignore es [] []) es [] path
unfolding load_project
load_project-Found os root path es e =
    let fresh : ScanState = record { files = []; rules = [] } in
    let own = load_gitignore es [] [] in
    let listed : load_project os root ≡ files_below os own es [] =
      ap
        (λ t. elim t as (λ _. List (List ℕ)) [
          | dir es ↦ (scan_dir os es [] fresh (scan_entries os es [])).files
          | _ ↦ []
        ])
        e
      ∙ ap (λ st. ScanState.files st) (root-adds os es) in
    rw listed (files_below-Found os path own es [])
