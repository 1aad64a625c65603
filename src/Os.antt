-- ===== src/Os.antt =====
-- The operating system and the libraries that the sources call and do not define: a value of `Os`
-- is one behaviour of them. A path, a file's contents and a message are lists of bytes.
use ved.Common.{ℕ, Bool, List, Option}

-- A directory tree as `stat`, `opendir` and `readdir` show it (src/finder.c). The contents of a
-- regular file are `none` where `fopen` fails; `locked` is a directory that `opendir` refuses.
mutual
  pub data Tree : Type 0 where
    file : Option (List ℕ) → Tree
    dir : Entries → Tree
    locked : Entries → Tree
    special : Tree

  pub data Entries : Type 0 where
    nil : Entries
    entry : List ℕ → Tree → Entries → Entries

-- A capture of the highlight query: its name, its bytes in the text, and the points where it starts
-- and ends.
pub record Capture : Type 0 where
  pub name : List ℕ
  pub start_byte : ℕ
  pub end_byte : ℕ
  pub start_row : ℕ
  pub start_col : ℕ
  pub end_row : ℕ
  pub end_col : ℕ

pub record Os : Type 0 where
  -- `fopen(path, "rb")` and the bytes that reading gives; `none` where it fails.
  pub fopen : List ℕ → Option (List ℕ)
  -- `open(path, O_WRONLY | O_CREAT | O_TRUNC, 0644) != -1`
  pub open_ok : List ℕ → Bool
  -- `write` of these bytes to a file that holds the first argument; `none` is -1.
  pub write : List ℕ → List ℕ → Option ℕ
  -- `close(fd) != -1`
  pub close_ok : List ℕ → Bool
  -- `strerror(errno)`
  pub strerror : List ℕ
  -- `access(path, R_OK) == 0`
  pub access_ok : List ℕ → Bool
  -- tree-sitter: the parser and the highlight query can be built.
  pub parser_ok : Bool
  pub query_ok : Bool
  -- `ts_parser_parse_string` gives a tree of this text, and the captures that the query's cursor
  -- gives one by one in the tree of a text, for a range of bytes.
  pub parses : List ℕ → Bool
  pub captures : List ℕ → ℕ → ℕ → List Capture
  -- `realpath(path, …)` and `getcwd(…)`; `none` is NULL.
  pub realpath : List ℕ → Option (List ℕ)
  pub getcwd : Option (List ℕ)
  -- what stands at an absolute path
  pub tree_at : List ℕ → Tree
  -- `fnmatch(pattern, string, flags) == 0`, the flag FNM_PATHNAME as a Boolean.
  pub fnmatch : List ℕ → List ℕ → Bool → Bool
