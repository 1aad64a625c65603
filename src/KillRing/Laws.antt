-- ===== src/KillRing/Laws.antt =====
-- What the kill ring of src/input.c holds after a kill.
use ved.Common.{
  ℕ, ◌≤◌, ◌<◌, ◌≡◌, ◌≢◌, refl, sym, ap, ◌∙◌, ◌⊎◌, inl, inr, Bool, true, false, ◌||◌, not, Option,
  none, some, List, [], ◌∷◌, ◌++◌, arith, ◌==◌, if◌then◌else◌, length, length-set, get_or-set_self,
  get_or-set_ne, Bool-cases,
}
use native.Mathlib.Decide.{ℕ_discrete}
use ved.KillRing.{
  KillRing, kill_ring_max, empty, entry_at, current, next_index, open_entry, extend_entry, kill_set,
  rotate,
}

-- The array has its 16 places, the current entry is one of those in use, and these are not NULL.
pub record IsValid (k : KillRing) : Type 0 where
  pub size : length k.entries ≡ kill_ring_max
  pub fits : k.len ≤ kill_ring_max
  pub index_in : (k.index < k.len) ⊎ ((k.len ≡ 0) × (k.index ≡ 0))
  pub filled : (i : ℕ) → i < k.len → (text : List ℕ) × (entry_at k i ≡ some text)

pub empty-IsValid : IsValid empty
unfolding empty
empty-IsValid = record {
  size = refl;
  fits = omega arith;
  index_in = inr (refl, refl);
  filled = λ i h. absurd (omega arith);
}

next_index-lt : (k : KillRing) → k.len ≤ kill_ring_max → next_index k < kill_ring_max
unfolding next_index
next_index-lt k h = ground arith

-- The text of an entry, empty for NULL.
abbrev pub text_of : Option (List ℕ) → List ℕ
text_of none = []
text_of (some text) = text

entry_at-extend :
    (k : KillRing) (more : List ℕ) (i : ℕ)
    → i ≢ k.index
    → entry_at (extend_entry k more) i ≡ entry_at k i
unfolding extend_entry
entry_at-extend k more i n = get_or-set_ne k.entries k.index i _ none (λ e. n (sym e))

current-extend :
    (k : KillRing) (more : List ℕ)
    → k.index < length k.entries
    → current (extend_entry k more) ≡ some (text_of (current k) ++ more)
unfolding extend_entry
current-extend k more h = get_or-set_self k.entries k.index _ none h ∙ ground arith

current-open : (k : KillRing) → IsValid k → current (open_entry k) ≡ none
unfolding open_entry
current-open k v =
    get_or-set_self k.entries (next_index k) none none
      (omega (arith, next_index-lt k v.fits, v.size))

in_open : (k : KillRing) → IsValid k → (open_entry k).index < length (open_entry k).entries
unfolding open_entry
in_open k v =
    omega (arith, next_index-lt k v.fits, length-set {0} k.entries (next_index k) none, v.size)

entry_at-open : (k : KillRing) (i : ℕ) → i ≢ next_index k → entry_at (open_entry k) i ≡ entry_at k i
unfolding open_entry
entry_at-open k i n = get_or-set_ne k.entries (next_index k) i none none (λ e. n (sym e))

-- Whether a kill makes a new entry.
abbrev pub makes_new : KillRing → Bool → Bool
makes_new k append = not append || k.len == 0

in_use : (k : KillRing) (append : Bool) → IsValid k → makes_new k append ≡ false → k.index < k.len
in_use k append v old = ground arith

-- In a valid ring, after a kill of a text that is not empty the current entry is that text, behind
-- the text of the current entry before if the kill goes on with that entry.
pub current-kill_set :
    (k : KillRing) (c : ℕ) (more : List ℕ) (append : Bool)
    → IsValid k
    → current (kill_set k (c ∷ more) append)
      ≡ some ((if makes_new k append then [] else text_of (current k)) ++ c ∷ more)
unfolding kill_set
current-kill_set k c more append v = elim (Bool-cases (makes_new k append)) [
  | inl new ↦ rw new (fresh (current-extend (open_entry k) (c ∷ more) (in_open k v)))
  | inr old ↦
      rw old (current-extend k (c ∷ more) (omega (arith, in_use k append v old, v.size, v.fits)))
]
  where
    fresh :
        current (extend_entry (open_entry k) (c ∷ more))
          ≡ some (text_of (current (open_entry k)) ++ c ∷ more)
        → current (extend_entry (open_entry k) (c ∷ more)) ≡ some (c ∷ more)
    fresh e = e ∙ ap (λ o. some (text_of o ++ c ∷ more)) (current-open k v)

-- A kill of a text that is not empty leaves every entry but the one that is current afterwards as
-- it was.
entry_at-kill_set :
    (k : KillRing) (c : ℕ) (more : List ℕ) (append : Bool) (i : ℕ)
    → i ≢ (kill_set k (c ∷ more) append).index
    → entry_at (kill_set k (c ∷ more) append) i ≡ entry_at k i
unfolding kill_set
entry_at-kill_set k c more append i n = elim (Bool-cases (makes_new k append)) [
  | inl new ↦
      let n' : i ≢ next_index k = moved new in
      rw new (
        entry_at-extend (open_entry k) (c ∷ more) i (unfold open_entry in n')
        ∙ entry_at-open k i n')
  | inr old ↦ rw old (entry_at-extend k (c ∷ more) i (unmoved old))
]
  where
    moved : makes_new k append ≡ true → i ≢ next_index k
    moved new e = n (e ∙ rw new (unfold open_entry extend_entry in refl))

    unmoved : makes_new k append ≡ false → i ≢ k.index
    unmoved old e = n (e ∙ rw old (unfold extend_entry in refl))

kept_filled :
    (k : KillRing) (more : List ℕ)
    → k.index < length k.entries
    → (i : ℕ) → (i ≢ k.index → (text : List ℕ) × (entry_at k i ≡ some text))
    → (text : List ℕ) × (entry_at (extend_entry k more) i ≡ some text)
kept_filled k more h i f = elim (ℕ_discrete i k.index) [
  | yes e ↦ (text_of (current k) ++ more, ap (entry_at (extend_entry k more)) e ∙ rest)
  | no n ↦ let (text, e) = f n in (text, entry_at-extend k more i n ∙ e)
]
  where
    rest : entry_at (extend_entry k more) k.index ≡ some (text_of (current k) ++ more)
    rest = unfold extend_entry in current-extend k more h

extend_entry-IsValid :
    (k : KillRing) (more : List ℕ)
    → length k.entries ≡ kill_ring_max
    → k.len ≤ kill_ring_max
    → k.index < k.len
    → ((i : ℕ) → i < k.len → i ≢ k.index → (text : List ℕ) × (entry_at k i ≡ some text))
    → IsValid (extend_entry k more)
extend_entry-IsValid k more size fits used f = record {
  size = unfold extend_entry in length-set k.entries k.index _ ∙ size;
  fits = unfold extend_entry in fits;
  index_in = inl (unfold extend_entry in used);
  filled = λ i h. kept_filled k more (omega arith) i (f i (unfold extend_entry in h));
}

open_fields :
    (k : KillRing)
    → k.len ≤ kill_ring_max
    → ((open_entry k).len ≤ kill_ring_max) × ((open_entry k).index < (open_entry k).len)
unfolding open_entry
open_fields k h = ground arith

open_filled :
    (k : KillRing)
    → IsValid k
    → (i : ℕ) → i < (open_entry k).len
    → i ≢ (open_entry k).index
    → i < k.len
unfolding open_entry
open_filled k v i h n = ground arith

-- A kill keeps the ring valid: 16 entries, a length of at most 16, an index in the used part, and
-- no NULL in the used part.
pub kill_set-IsValid :
    (k : KillRing) (text : List ℕ) (append : Bool) → IsValid k → IsValid (kill_set k text append)
unfolding kill_set
kill_set-IsValid k [] append v = v
kill_set-IsValid k (c ∷ more) append v = elim (Bool-cases (makes_new k append)) [
  | inl new ↦ rw new (
      extend_entry-IsValid (open_entry k) (c ∷ more) size (open_fields k v.fits).0
        (open_fields k v.fits).1 filled)
  | inr old ↦ rw old (
      extend_entry-IsValid k (c ∷ more) v.size v.fits (in_use k append v old)
        (λ i h n. v.filled i h))
]
  where
    size : length (open_entry k).entries ≡ kill_ring_max
    size = unfold open_entry in length-set k.entries (next_index k) none ∙ v.size

    filled :
        (i : ℕ)
        → i < (open_entry k).len
        → i ≢ (open_entry k).index
        → (text : List ℕ) × (entry_at (open_entry k) i ≡ some text)
    filled i h n =
        let (text, e) = v.filled i (open_filled k v i h n) in
        (text, entry_at-open k i (unfold open_entry in n) ∙ e)

-- In a valid ring that is not empty, the step of `M-y` keeps the ring valid, and so stays on an
-- entry that is not NULL.
pub rotate-IsValid : (k : KillRing) → IsValid k → 0 < k.len → IsValid (rotate k)
unfolding rotate
rotate-IsValid k v h = record {
  size = v.size;
  fits = v.fits;
  index_in = inl (ground arith);
  filled = v.filled;
}
