-- ===== src/Common/Bits.antt =====
-- The disjunction of two numbers that share no digit, for the shifts of src/util.c.
use Prim.Native.Nat.{
  ℕ, zero, suc, ◌+◌, ◌*◌, ◌/◌, ◌^◌, ◌≤◌, ◌<◌, max, bit_or, digits, bit_or-bitwise,
}
use mathlib.Core.Path.{◌≡◌, refl, sym, ap, ◌∙◌}
use native.Mathlib.Nat.{mul_assoc, pow-suc}
use native.Mathlib.Omega.{arith}

-- `high` is some number of times `2 ^ k`, and the rounds are enough for all its digits.
digits-shifted :
    (rounds k high times low : ℕ)
    → high ≡ times * 2 ^ k
    → high ≤ rounds
    → low < 2 ^ k
    → digits (λ d. d) max rounds high low ≡ high + low
digits-shifted zero k high times low e enough below = omega arith
digits-shifted (suc r) k zero times low e enough below = omega arith
digits-shifted (suc r) zero (suc h) times low e enough below =
    let none_left : low ≡ 0 = omega arith in
    rw none_left (
      omega (
        arith,
        digits-shifted r 0 (suc h / 2) (suc h / 2) 0 (omega arith) (omega arith) (omega arith),
      ))
digits-shifted (suc r) (suc k) (suc h) times low e enough below =
    let even : suc h ≡ times * 2 ^ k * 2 =
      e ∙ ap (λ (p : ℕ). times * p) (pow-suc 2 k) ∙ sym (mul_assoc times (2 ^ k) 2) in
    let half : suc h / 2 ≡ times * 2 ^ k = omega (arith, even) in
    omega
      (arith, even, digits-shifted r k (suc h / 2) times (low / 2) half (omega arith) (omega arith))

-- A number below the lowest digit of another is added by their disjunction.
pub bit_or-shift : (k x c : ℕ) → c < 2 ^ k → bit_or (x * 2 ^ k) c ≡ x * 2 ^ k + c
bit_or-shift k x c below =
    bit_or-bitwise (x * 2 ^ k) c
    ∙ digits-shifted (x * 2 ^ k) k (x * 2 ^ k) x c refl (omega arith) below
