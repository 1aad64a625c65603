-- ===== src/Common/Slices.antt =====
-- Laws of `take` and `drop` on C strings.
use Prim.Native.Nat.{ℕ, zero, suc, ◌+◌, ◌≤◌, ◌<◌}
use mathlib.Core.Path.{◌≡◌, refl, ap}
use mathlib.Core.List.{List, [], ◌∷◌, ◌++◌, append-nil}
use native.Mathlib.Omega.{arith}
use mathlib.Core.Logic.{inl, inr}
use ved.Common.Tests.{ltb, if◌then◌else◌, lt_or_le}
use ved.Common.Lists.{length, get_or, set, take, drop, take-append-drop}

module _ {ℓ} {A : Type ℓ} where
  pub take_all : (n : ℕ) (xs : List A) → length xs ≤ n → take n xs ≡ xs
  take_all zero [] h = refl
  take_all zero (x ∷ xs) h = elim h [ ]
  take_all (suc n) [] h = refl
  take_all (suc n) (x ∷ xs) h = ap (x ∷◌) (take_all n xs (omega arith))

  pub drop_all : (n : ℕ) (xs : List A) → length xs ≤ n → drop n xs ≡ []
  drop_all zero [] h = refl
  drop_all zero (x ∷ xs) h = elim h [ ]
  drop_all (suc n) [] h = refl
  drop_all (suc n) (x ∷ xs) h = drop_all n xs (omega arith)

  get_or-take : (xs : List A) (n i : ℕ) (d : A) → i < n → get_or (take n xs) i d ≡ get_or xs i d
  get_or-take xs zero i d h = elim h [ ]
  get_or-take [] (suc n) i d h = refl
  get_or-take (x ∷ xs) (suc n) zero d h = refl
  get_or-take (x ∷ xs) (suc n) (suc i) d h = get_or-take xs n i d (omega arith)

  pub get_or-drop : (xs : List A) (n i : ℕ) (d : A) → get_or (drop n xs) i d ≡ get_or xs (n + i) d
  get_or-drop xs zero i d = ap (λ k. get_or xs k d) (omega arith)
  get_or-drop [] (suc n) i d = refl
  get_or-drop (x ∷ xs) (suc n) i d = rw (shift n i) (get_or-drop xs n i d)
    where
      shift : (n i : ℕ) → suc n + i ≡ suc (n + i)
      shift n i = omega arith

  pub set_same : (xs : List A) (i : ℕ) (d : A) → set xs i (get_or xs i d) ≡ xs
  set_same [] i d = refl
  set_same (x ∷ xs) zero d = refl
  set_same (x ∷ xs) (suc i) d = ap (x ∷◌) (set_same xs i d)

  -- Cutting after a piece of known length.
  take-append : (xs ys : List A) → take (length xs) (xs ++ ys) ≡ xs
  take-append [] ys = refl
  take-append (x ∷ xs) ys = ap (x ∷◌) (take-append xs ys)

  pub drop-append : (xs ys : List A) → drop (length xs) (xs ++ ys) ≡ ys
  drop-append [] ys = refl
  drop-append (x ∷ xs) ys = drop-append xs ys

module _ {A : Type 0} where
  -- The source's `if (col > len) col = len;` does not change what is cut off.
  pub take-clamp :
      (n : ℕ) (xs : List A) → take (if ltb (length xs) n then length xs else n) xs ≡ take n xs
  take-clamp n xs = ground (arith, take_all n xs, take_all (length xs) xs)

  pub drop-clamp :
      (n : ℕ) (xs : List A) → drop (if ltb (length xs) n then length xs else n) xs ≡ drop n xs
  drop-clamp n xs = ground (arith, drop_all n xs, drop_all (length xs) xs)

module _ {A : Type 0} where
  -- Where two clamped columns do not leave a gap, cutting between them changes nothing.
  pub take-append-drop_same :
      (start end : ℕ) (xs : List A)
      → start ≤ end
      → (if ltb (length xs) end then length xs else end)
        ≤ (if ltb (length xs) start then length xs else start)
      → take start xs ++ drop end xs ≡ xs
  take-append-drop_same start end xs h k = elim (lt_or_le start (length xs)) [
    | inl p ↦ let e : end ≡ start = ground arith in rw e (take-append-drop start xs)
    | inr p ↦ rw (take_all start xs p, drop_all end xs (omega arith)) (append-nil xs)
  ]
