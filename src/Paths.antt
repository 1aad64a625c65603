-- ===== src/Paths.antt =====
-- The path functions of src/finder.c, and its search for the root of the project.
use ved.Common.{
  ℕ, zero, suc, Bool, true, false, ◌&&◌, Option, none, some, List, [], ◌∷◌, ◌++◌, ◌==◌,
  if◌then◌else◌, length,
}
use ved.Text.{codes, bytes_eq, after_last, before_last}
use ved.Os.{Os, Tree, dir, locked}

-- `left_len > 0 && left[left_len - 1] != '/'`
unfoldable pub needs_separator : List ℕ → Bool
needs_separator [] = false
needs_separator (c ∷ []) = if c == b'/' then false else true
needs_separator (c ∷ d ∷ rest) = needs_separator (d ∷ rest)

unfoldable pub path_join : List ℕ → List ℕ → List ℕ
unfolding needs_separator
path_join left right = left ++ ((if needs_separator left then b'/' ∷ [] else []) ++ right)

unfoldable pub is_dir_tree : Tree → Bool
is_dir_tree (dir es) = true
is_dir_tree (locked es) = true
is_dir_tree _ = false

unfoldable pub path_is_dir : Os → List ℕ → Bool
unfolding is_dir_tree
path_is_dir os path = is_dir_tree (os.tree_at path)

unfoldable pub path_dirname : List ℕ → List ℕ
path_dirname path = elim (before_last b'/' path) [
  | none ↦ b'.' ∷ []
  | some [] ↦ b'/' ∷ []
  | some (c ∷ rest) ↦ c ∷ rest
]

unfoldable pub path_basename : List ℕ → List ℕ
path_basename path = elim (after_last b'/' path) [ none ↦ path | some name ↦ name ]

unfoldable pub starts_with : List ℕ → List ℕ → Bool
starts_with path [] = true
starts_with [] (p ∷ prefix) = false
starts_with (c ∷ path) (p ∷ prefix) = c == p && starts_with path prefix

-- Whether the bytes are at their end or at a `/`.
unfoldable pub at_component_end : List ℕ → Bool
at_component_end [] = true
at_component_end (c ∷ rest) = c == b'/'

-- The loop of `find_project_root`, with at most this many rounds.
unfoldable pub root_rounds : ℕ → Os → List ℕ → Option (List ℕ)
root_rounds zero os current = none
root_rounds (suc k) os current =
    let up : Option (List ℕ) = elim (before_last b'/' current) [
      | none ↦ none
      | some [] ↦ root_rounds k os (b'/' ∷ [])
      | some (c ∷ rest) ↦ root_rounds k os (c ∷ rest)
    ] in
    if path_is_dir os (path_join current (codes ".git"))
    then some current
    else (if bytes_eq current (b'/' ∷ []) then none else up)

-- Each round but the last makes the path shorter or ends at `/`.
unfoldable pub find_project_root : Os → List ℕ → Option (List ℕ)
find_project_root os start_dir = elim (os.realpath start_dir) [
  | none ↦ none
  | some resolved ↦ root_rounds (suc (suc (length resolved))) os resolved
]

-- `project_root_for_editor`, of the path of the buffer's file.
unfoldable pub project_root : Os → Option (List ℕ) → Option (List ℕ)
unfolding find_project_root
project_root os (some (c ∷ rest)) =
    if c == b'/'
    then find_project_root os (path_dirname (c ∷ rest))
    else elim os.getcwd [ none ↦ none | some cwd ↦ find_project_root os cwd ]
project_root os _ = elim os.getcwd [ none ↦ none | some cwd ↦ find_project_root os cwd ]
