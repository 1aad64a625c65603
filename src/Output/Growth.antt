-- ===== src/Output/Growth.antt =====
-- The growth of the output buffer of src/render.c.
use ved.Common.{
  if◌then◌else◌, ℕ, zero, suc, ◌+◌, ◌*◌, ◌≤◌, ◌<◌, ◌≡◌, ◌⊎◌, inl, refl, sym, false, List, [], ◌∷◌,
  ◌++◌, arith, ltb, ◌==◌, if_cases, length, length-append, append-nil,
}
use ved.Output.{AppendBuf, doubled, next_cap, ab_append}

doubled-ge :
    (fuel next needed : ℕ) → 0 < next → needed ≤ fuel + next → needed ≤ doubled fuel next needed
unfolding doubled
doubled-ge zero next needed p h = omega arith
doubled-ge (suc fuel) next needed p h =
    if_cases (λ cap. needed ≤ cap) (ltb next needed)
      (λ _. doubled-ge fuel (next * 2) needed (omega arith) (omega arith)) (λ t. ground arith)

next_cap-ge : (cap needed : ℕ) → needed ≤ next_cap cap needed
unfolding next_cap
next_cap-ge cap needed =
    if_cases (λ c. needed ≤ c) (ltb cap needed)
      (λ t.
        doubled-ge needed (if cap == 0 then 256 else cap * 2) needed (ground arith) (omega arith))
      (λ t. ground arith)

-- The memory holds the bytes and their terminator, or nothing is allocated and there are no bytes.
abbrev pub Fits : AppendBuf → Type 0
Fits ab = (length ab.bytes < ab.cap) ⊎ ((ab.cap ≡ 0) × (ab.bytes ≡ []))

ab_append-cons :
    (ab : AppendBuf) (c : ℕ) (more : List ℕ)
    → ab_append ab (c ∷ more) ≡ record {
      bytes = ab.bytes ++ c ∷ more;
      cap = next_cap ab.cap (length ab.bytes + length (c ∷ more) + 1);
    }
unfolding ab_append
ab_append-cons ab c more = let e : (length (c ∷ more) == 0) ≡ false = ground arith in rw e refl

pub bytes-ab_append :
    (ab : AppendBuf) (text : List ℕ) → (ab_append ab text).bytes ≡ ab.bytes ++ text
unfolding ab_append
bytes-ab_append ab [] = sym (append-nil ab.bytes)
bytes-ab_append ab (c ∷ text) = let e : (length (c ∷ text) == 0) ≡ false = ground arith in rw e refl

-- An append puts the bytes behind those that are there, and the memory that it writes to, to the
-- terminator, is memory that it has: the loop that doubles the capacity ends by its own test.
pub ab_append_lem :
    (ab : AppendBuf) (more : List ℕ)
    → Fits ab
    → ((ab_append ab more).bytes ≡ ab.bytes ++ more) × Fits (ab_append ab more)
unfolding ab_append
ab_append_lem ab [] v = (sym (append-nil ab.bytes), v)
ab_append_lem ab (c ∷ more) v =
    rw (ab_append-cons ab c more) (refl, inl (rw length-append (omega (arith, room))))
  where
    room :
        length ab.bytes + length (c ∷ more) + 1
        ≤ next_cap ab.cap (length ab.bytes + length (c ∷ more) + 1)
    room = next_cap-ge ab.cap (length ab.bytes + length (c ∷ more) + 1)
