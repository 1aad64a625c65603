-- ===== src/KillRing.antt =====
-- The kill ring of src/editor.h and `editor_kill_set` of src/input.c.
pub mod Laws
pub mod Clean
use ved.Common.{
  ℕ, zero, suc, ◌+◌, ◌-◌, ◌%◌, Bool, ◌||◌, not, Option, none, some, List, [], ◌∷◌, ◌++◌, ltb, ◌==◌,
  if◌then◌else◌, length, get_or, set, replicate,
}

abbrev pub kill_ring_max : ℕ
kill_ring_max = 16

-- `kill_ring`, `kill_ring_len` and `kill_ring_index`; an entry is `none` for NULL.
pub record KillRing : Type 0 where
  pub entries : List (Option (List ℕ))
  pub len : ℕ
  pub index : ℕ

unfoldable pub empty : KillRing
empty = record { entries = replicate kill_ring_max none; len = 0; index = 0 }

abbrev pub entry_at : KillRing → ℕ → Option (List ℕ)
entry_at k i = get_or k.entries i none

-- `kill_ring[kill_ring_index]`
abbrev pub current : KillRing → Option (List ℕ)
current k = entry_at k k.index

-- The index of a new entry: the next free one, or the one after the current entry.
unfoldable pub next_index : KillRing → ℕ
next_index k = if ltb k.len kill_ring_max then k.len else (k.index + 1) % kill_ring_max

unfoldable pub open_entry : KillRing → KillRing
unfolding next_index
open_entry k = record {
  entries = set k.entries (next_index k) none;
  len = if ltb k.len kill_ring_max then suc k.len else k.len;
  index = next_index k;
}

unfoldable pub extend_entry : KillRing → List ℕ → KillRing
extend_entry k more = record k {
  entries =
      set k.entries k.index (some ((elim (current k) [ none ↦ [] | some text ↦ text ]) ++ more));
}

-- `editor_kill_set`; `len` is the length of the bytes.
unfoldable pub kill_set : KillRing → List ℕ → Bool → KillRing
unfolding open_entry extend_entry
kill_set k [] append = k
kill_set k (x ∷ more) append =
    extend_entry (if not append || k.len == 0 then open_entry k else k) (x ∷ more)

-- The step of `M-y` to the entry before, round the used part of the ring.
unfoldable pub rotate : KillRing → KillRing
rotate k =
    let top = if ltb k.len kill_ring_max then k.len else kill_ring_max in
    record k { index = if k.index == 0 then top - 1 else k.index - 1 }
