-- ===== src/Ignore.antt =====
-- The `.gitignore` rules of src/finder.c and the scan of the project's directories.
pub mod Decide
pub mod Found
use ved.Common.{
  ℕ, zero, suc, Bool, true, false, ◌&&◌, ◌||◌, not, Option, none, some, List, [], ◌∷◌, ◌++◌, ◌==◌,
  if◌then◌else◌, length, take, drop,
}
use ved.Text.{codes, bytes_eq, c_string, getlines}
use ved.Os.{Os, Tree, file, dir, locked, special, Entries, nil, entry}
use ved.Paths.{path_join, path_basename, starts_with, at_component_end}

pub record IgnoreRule : Type 0 where
  pub pattern : List ℕ
  pub base : List ℕ
  pub negated : Bool
  pub dir_only : Bool
  pub has_slash : Bool
  pub anchored : Bool

abbrev pub is_blank : ℕ → Bool
is_blank c = c == 32 || c == 9

-- `trim_whitespace`: the end, and then the start.
unfoldable pub trim_end : List ℕ → List ℕ
trim_end [] = []
trim_end (c ∷ rest) = elim (trim_end rest) [
  | [] ↦ if is_blank c || c == 13 || c == 10 then [] else c ∷ []
  | d ∷ more ↦ c ∷ d ∷ more
]

unfoldable pub trim_start : List ℕ → List ℕ
trim_start [] = []
trim_start (c ∷ rest) = if is_blank c then trim_start rest else c ∷ rest

unfoldable pub trim_whitespace : List ℕ → List ℕ
unfolding trim_end trim_start
trim_whitespace line = trim_start (trim_end line)

-- A leading byte that is taken off: whether it was there, and the rest.
unfoldable pub strip_head : ℕ → List ℕ → Bool × List ℕ
strip_head c [] = (false, [])
strip_head c (d ∷ rest) = if d == c then (true, rest) else (false, d ∷ rest)

-- The same for a last byte.
unfoldable pub strip_last : ℕ → List ℕ → Bool × List ℕ
strip_last c [] = (false, [])
strip_last c (d ∷ []) = if d == c then (true, []) else (false, d ∷ [])
strip_last c (d ∷ e ∷ rest) = let (had, kept) = strip_last c (e ∷ rest) in (had, d ∷ kept)

-- `strchr(copy, c) != NULL`
unfoldable pub contains : ℕ → List ℕ → Bool
contains c [] = false
contains c (d ∷ rest) = d == c || contains c rest

-- `parse_gitignore_line` of a trimmed line.
unfoldable pub parse_trimmed : List ℕ → List ℕ → Option IgnoreRule
unfolding strip_head strip_last contains
parse_trimmed [] base = none
parse_trimmed (c ∷ rest) base =
    let (negated, unmarked) = strip_head b'!' (c ∷ rest) in
    let (anchored, unrooted) = strip_head b'/' unmarked in
    let (dir_only, pattern) = strip_last b'/' unrooted in
    if c == b'#' || length pattern == 0
    then none
    else some (record {
      pattern = pattern;
      base = base;
      negated = negated;
      dir_only = dir_only;
      has_slash = contains b'/' pattern;
      anchored = anchored;
    })

unfoldable pub parse_gitignore_line : List ℕ → List ℕ → Option IgnoreRule
unfolding parse_trimmed trim_whitespace
parse_gitignore_line line base = parse_trimmed (trim_whitespace line) base

-- `if (len > 0 && (line[len - 1] == '\n' || line[len - 1] == '\r')) line[len - 1] = '\0';`
unfoldable pub chop : List ℕ → List ℕ
chop [] = []
chop (c ∷ []) = if c == 10 || c == 13 then [] else c ∷ []
chop (c ∷ d ∷ rest) = c ∷ chop (d ∷ rest)

-- The `getline` loop of `load_gitignore`, on the list of rules.
unfoldable pub add_rules : List IgnoreRule → List ℕ → List (List ℕ) → List IgnoreRule
unfolding parse_gitignore_line chop
add_rules list base [] = list
add_rules list base (line ∷ rest) =
    add_rules
      (elim (parse_gitignore_line (c_string (chop line)) base) [
        | none ↦ list
        | some rule ↦ list ++ rule ∷ []
      ])
      base rest

-- The tree of this name in a directory.
unfoldable pub find_entry : List ℕ → Entries → Option Tree
find_entry name nil = none
find_entry name (entry n t es) = if bytes_eq n name then some t else find_entry name es

-- `load_gitignore` of the directory's `.gitignore`.
unfoldable pub load_gitignore : Entries → List ℕ → List IgnoreRule → List IgnoreRule
unfolding find_entry
load_gitignore es base list = elim (find_entry (codes ".gitignore") es) [
  | some (file (some contents)) ↦ add_rules list base (getlines contents)
  | _ ↦ list
]

-- `path_has_prefix`
unfoldable pub path_has_prefix : List ℕ → List ℕ → Bool
path_has_prefix path prefix =
    if length prefix == 0
    then true
    else starts_with path prefix && at_component_end (drop (length prefix) path)

-- The path below the base of a rule: behind it, and behind one `/` if the base is not empty.
unfoldable pub below_base : List ℕ → List ℕ → List ℕ
unfolding strip_head
below_base path base =
    let rel = drop (length base) path in if length base == 0 then rel else (strip_head b'/' rel).1

unfoldable pub rule_matches : Os → IgnoreRule → List ℕ → Bool → Bool
unfolding below_base path_has_prefix
rule_matches os rule path_rel is_dir =
    let rel = below_base path_rel rule.base in
    if rule.dir_only && not is_dir
    then false
    else if rule.has_slash || rule.anchored
    then path_has_prefix path_rel rule.base
      && (not (length rel == 0) && os.fnmatch rule.pattern rel true)
    else os.fnmatch rule.pattern (path_basename path_rel) false

-- The loop of `is_ignored`, with the result so far.
unfoldable pub ignored_by : Os → Bool → List IgnoreRule → List ℕ → Bool → Bool
ignored_by os ignored [] path_rel is_dir = ignored
ignored_by os ignored (rule ∷ rest) path_rel is_dir =
    ignored_by os (if rule_matches os rule path_rel is_dir then not rule.negated else ignored) rest
      path_rel is_dir

unfoldable pub is_ignored : Os → List IgnoreRule → List ℕ → Bool → Bool
unfolding ignored_by
is_ignored os list path_rel is_dir = ignored_by os false list path_rel is_dir

-- What `scan_project_dir` changes: the files of the finder and the list of rules.
pub record ScanState : Type 0 where
  pub files : List (List ℕ)
  pub rules : List IgnoreRule

-- `ignore_list_truncate`
unfoldable pub truncate : ScanState → ℕ → ScanState
truncate st len = record st { rules = take len st.rules }

-- The names that the scan passes over.
unfoldable pub is_skipped : List ℕ → Bool
is_skipped name =
    bytes_eq name (codes ".") || bytes_eq name (codes "..") || bytes_eq name (codes ".git")

-- The path of an entry, relative to the root.
unfoldable pub entry_path : List ℕ → List ℕ → List ℕ
entry_path [] name = name
entry_path (c ∷ rest) name = path_join (c ∷ rest) name

module _ (os : Os) where
  -- `scan_project_dir` of a directory whose entries `scan` goes through.
  abbrev pub scan_dir : Entries → List ℕ → ScanState → (ScanState → ScanState) → ScanState
  scan_dir es dir_rel st scan =
      let loaded = record st { rules = load_gitignore es dir_rel st.rules } in
      truncate (scan loaded) (length st.rules)

  unfoldable mutual
    -- One round of the `readdir` loop, once the name is not skipped.
    pub scan_tree : Tree → List ℕ → ScanState → ScanState
    scan_tree (file contents) rel st =
        if is_ignored os st.rules rel false then st else record st { files = st.files ++ rel ∷ [] }
    scan_tree (dir es) rel st =
        let scanned = scan_dir es rel st (scan_entries es rel) in
        if is_ignored os st.rules rel true then st else scanned
    scan_tree (locked es) rel st =
        let scanned = scan_dir es rel st (λ s. s) in
        if is_ignored os st.rules rel true then st else scanned
    scan_tree special rel st = st

    -- The `readdir` loop of the directory `dir_rel`.
    pub scan_entries : Entries → List ℕ → ScanState → ScanState
    scan_entries nil dir_rel st = st
    scan_entries (entry name t es) dir_rel st =
        let kept = scan_tree t (entry_path dir_rel name) st in
        scan_entries es dir_rel (if is_skipped name then st else kept)

  -- `finder_load_project`: the files below the root.
  unfoldable pub load_project : List ℕ → List (List ℕ)
  unfolding scan_tree scan_entries
  load_project root =
      let fresh : ScanState = record { files = []; rules = [] } in
      elim (os.tree_at root) [ dir es ↦ (scan_dir es [] fresh (scan_entries es [])).files | _ ↦ [] ]
