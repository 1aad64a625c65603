-- ===== src/Common/All.antt =====
-- What holds of every element of a list.
use Prim.Native.Nat.{ℕ, zero, suc}
use mathlib.Core.List.{List, [], ◌∷◌, ◌++◌}
use ved.Common.Lists.{get_or, set, take, drop}

module _ {ℓ κ} {A : Type ℓ} (P : A → Type κ) where
  abbrev pub All : List A → Type κ
  All [] = Unit
  All (x ∷ xs) = P x × All xs

  pub All-append : (xs ys : List A) → All xs → All ys → All (xs ++ ys)
  All-append [] ys h k = k
  All-append (x ∷ xs) ys (p, h) k = (p, All-append xs ys h k)

  pub All-take : (n : ℕ) (xs : List A) → All xs → All (take n xs)
  All-take zero xs h = tt
  All-take (suc n) [] h = h
  All-take (suc n) (x ∷ xs) (p, h) = (p, All-take n xs h)

  pub All-drop : (n : ℕ) (xs : List A) → All xs → All (drop n xs)
  All-drop zero xs h = h
  All-drop (suc n) [] h = h
  All-drop (suc n) (x ∷ xs) (p, h) = All-drop n xs h

  pub All-set : (xs : List A) (i : ℕ) (v : A) → P v → All xs → All (set xs i v)
  All-set [] i v q h = h
  All-set (x ∷ xs) zero v q (p, h) = (q, h)
  All-set (x ∷ xs) (suc i) v q (p, h) = (p, All-set xs i v q h)

  pub get_or-All : (xs : List A) (i : ℕ) (d : A) → P d → All xs → P (get_or xs i d)
  get_or-All [] i d q h = q
  get_or-All (x ∷ xs) zero d q (p, h) = p
  get_or-All (x ∷ xs) (suc i) d q (p, h) = get_or-All xs i d q h
