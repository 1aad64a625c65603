-- ===== src/Base64/RoundTrip.antt =====
-- A decoder of RFC 4648 gives back what `base64_encode` of src/util.c was given.
use ved.Common.{
  holds_from-at, ℕ, ◌+◌, ◌*◌, ◌/◌, ◌%◌, ◌^◌, ◌<◌, ◌≡◌, refl, ap, ◌∙◌, false, not, Option, none,
  some, List, [], ◌∷◌, arith, ◌==◌, ==→eq, ◌-◌, ◌&&◌, Bool, true, leb, ltb, if◌then◌else◌, bit_or,
  get_or,
}
use ved.Common.Bits.{bit_or-shift}
use ved.Base64.{table, triple, digit, base64_encode}

-- The six bits that a character stands for in Table 1 of RFC 4648, and 64 for a byte that is none.
unfoldable pub six_bits : ℕ → ℕ
six_bits c =
    if leb b'A' c && leb c b'Z'
    then c - b'A'
    else if leb b'a' c && leb c b'z'
    then c - b'a' + 26
    else if leb b'0' c && leb c b'9'
    then c - b'0' + 52
    else if c == b'+'
    then 62
    else if c == b'/'
    then 63
    else 64

abbrev is_digit : ℕ → Bool
is_digit c = ltb (six_bits c) 64

-- The one or two bytes before the padding; the bits that are left over must be zero.
unfoldable pub last_bytes : ℕ → ℕ → ℕ → Option (List ℕ)
last_bytes w x y =
    let first = six_bits w * 4 + six_bits x / 16 in
    let second = six_bits x % 16 * 16 + six_bits y / 4 in
    if y == b'='
    then (if six_bits x % 16 == 0 then some (first ∷ []) else none)
    else if is_digit y && six_bits y % 4 == 0
    then some (first ∷ second ∷ [])
    else none

-- Four characters give three bytes, or fewer where `=` stands for the last ones; a rest of one to
-- three characters is refused, and so is a byte outside of the alphabet and padding before the end.
unfoldable pub decode : List ℕ → Option (List ℕ)
unfolding last_bytes
decode [] = some []
decode (w ∷ []) = none
decode (w ∷ x ∷ []) = none
decode (w ∷ x ∷ y ∷ []) = none
decode (w ∷ x ∷ y ∷ z ∷ rest) =
    let first = six_bits w * 4 + six_bits x / 16 in
    let second = six_bits x % 16 * 16 + six_bits y / 4 in
    let third = six_bits y % 4 * 64 + six_bits z in
    let short : Option (List ℕ) = elim rest [ [] ↦ last_bytes w x y | _ ∷ _ ↦ none ] in
    let long : Option (List ℕ) = elim (decode rest) [
      | none ↦ none
      | some more ↦ some (first ∷ second ∷ third ∷ more)
    ] in
    if is_digit w && is_digit x
    then (if z == b'=' then short else if is_digit y && is_digit z then long else none)
    else none

six_bits-table : (i : ℕ) → i < 64 → six_bits (get_or table i 0) ≡ i
unfolding six_bits table
six_bits-table i h =
    ==→eq _ i (holds_from-at 64 0 i (λ j. six_bits (get_or table j 0) == j) refl (omega arith) h)

table-ne-pad : (i : ℕ) → i < 64 → (get_or table i 0 == b'=') ≡ false
unfolding table
table-ne-pad i h =
    ground (arith, holds_from-at 64 0 i (λ j. not (get_or table j 0 == b'=')) refl (omega arith) h)

triple-eq : (a b c : ℕ) → b < 256 → c < 256 → triple a b c ≡ (a * 256 + b) * 256 + c
unfolding triple
triple-eq a b c hb hc =
    ap (λ t. bit_or t c) (bit_or-shift 16 a (b * 2 ^ 8) (omega arith) ∙ high)
    ∙ bit_or-shift 8 (a * 256 + b) c hc
  where
    high : a * 2 ^ 16 + b * 2 ^ 8 ≡ (a * 256 + b) * 2 ^ 8
    high = omega arith

six_bits-digit : (t shift : ℕ) → six_bits (digit t shift) ≡ t / 2 ^ shift % 64
unfolding digit
six_bits-digit t shift = six_bits-table (t / 2 ^ shift % 64) (omega arith)

digit-ne-pad : (t shift : ℕ) → (digit t shift == b'=') ≡ false
unfolding digit
digit-ne-pad t shift = table-ne-pad (t / 2 ^ shift % 64) (omega arith)

digit-is_digit : (t shift : ℕ) → is_digit (digit t shift) ≡ true
digit-is_digit t shift = ground (arith, six_bits-digit t shift)

abbrev pub AreBytes : List ℕ → Type 0
AreBytes [] = Unit
AreBytes (x ∷ xs) = (x < 256) × AreBytes xs

-- The bytes that the four characters of three bytes stand for.
module _ (a b c : ℕ) (ha : a < 256) (hb : b < 256) (hc : c < 256) where
  t : ℕ
  t = triple a b c

  first-eq : six_bits (digit t 18) * 4 + six_bits (digit t 12) / 16 ≡ a
  unfolding t
  first-eq = omega (arith, six_bits-digit t 18, six_bits-digit t 12, triple-eq a b c hb hc)

  second-eq : six_bits (digit t 12) % 16 * 16 + six_bits (digit t 6) / 4 ≡ b
  unfolding t
  second-eq = omega (arith, six_bits-digit t 12, six_bits-digit t 6, triple-eq a b c hb hc)

  third-eq : six_bits (digit t 6) % 4 * 64 + six_bits (digit t 0) ≡ c
  unfolding t
  third-eq = omega (arith, six_bits-digit t 6, six_bits-digit t 0, triple-eq a b c hb hc)

-- A strict decoder of RFC 4648, which takes the digits from the ranges of its Table 1 and refuses any
-- other byte, padding before the end and left-over bits that are not zero, gives back the bytes that
-- `base64_encode` was given.
pub decode-base64_encode :
    (bytes : List ℕ) → AreBytes bytes → decode (base64_encode bytes) ≡ some bytes
unfolding decode base64_encode last_bytes t
decode-base64_encode [] h = refl
decode-base64_encode (a ∷ []) (ha, h) =
    rw
      (
        digit-is_digit (triple a 0 0) 18,
        digit-is_digit (triple a 0 0) 12,
        no_rest_12,
        first-eq a 0 0 ha (omega arith) (omega arith),
      )
      refl
  where
    no_rest_12 : (six_bits (digit (triple a 0 0) 12) % 16 == 0) ≡ true
    no_rest_12 =
        ground
          (arith, six_bits-digit (triple a 0 0) 12, triple-eq a 0 0 (omega arith) (omega arith))
decode-base64_encode (a ∷ b ∷ []) (ha, (hb, h)) =
    rw
      (
        digit-is_digit (triple a b 0) 18,
        digit-is_digit (triple a b 0) 12,
        digit-ne-pad (triple a b 0) 6,
        digit-is_digit (triple a b 0) 6,
        no_rest_6,
        first-eq a b 0 ha hb (omega arith),
        second-eq a b 0 ha hb (omega arith),
      )
      refl
  where
    no_rest_6 : (six_bits (digit (triple a b 0) 6) % 4 == 0) ≡ true
    no_rest_6 = ground (arith, six_bits-digit (triple a b 0) 6, triple-eq a b 0 hb (omega arith))
decode-base64_encode (a ∷ b ∷ c ∷ rest) (ha, (hb, (hc, h))) = rw (
  digit-is_digit (triple a b c) 18,
  digit-is_digit (triple a b c) 12,
  digit-ne-pad (triple a b c) 0,
  digit-is_digit (triple a b c) 6,
  digit-is_digit (triple a b c) 0,
  decode-base64_encode rest h,
  first-eq a b c ha hb hc,
  second-eq a b c ha hb hc,
  third-eq a b c ha hb hc,
)
