-- ===== src/Base64.antt =====
-- `base64_encode` of src/util.c, and the message that `osc52_set_clipboard` of src/input.c makes of
-- it.
pub mod RoundTrip
use ved.Common.{ℕ, ◌+◌, ◌*◌, ◌/◌, ◌%◌, ◌^◌, List, [], ◌∷◌, ◌++◌, bit_or, get_or}
use ved.Text.{codes}

unfoldable pub table : List ℕ
table = codes "ABCDEFGHIJKLMNOPQRSTUVWXYZabcdefghijklmnopqrstuvwxyz0123456789+/"

-- `(a << 16) | (b << 8) | c`
unfoldable pub triple : ℕ → ℕ → ℕ → ℕ
triple a b c = bit_or (bit_or (a * 2 ^ 16) (b * 2 ^ 8)) c

-- `table[(triple >> shift) & 0x3f]`
unfoldable pub digit : ℕ → ℕ → ℕ
digit t shift = get_or table (t / 2 ^ shift % 64) 0

-- The loop of `base64_encode`, three bytes a round.
unfoldable pub base64_encode : List ℕ → List ℕ
base64_encode [] = []
base64_encode (a ∷ []) = let t = triple a 0 0 in digit t 18 ∷ digit t 12 ∷ b'=' ∷ b'=' ∷ []
base64_encode (a ∷ b ∷ []) = let t = triple a b 0 in digit t 18 ∷ digit t 12 ∷ digit t 6 ∷ b'=' ∷ []
base64_encode (a ∷ b ∷ c ∷ rest) =
    let t = triple a b c in digit t 18 ∷ digit t 12 ∷ digit t 6 ∷ digit t 0 ∷ base64_encode rest

-- The three writes of `osc52_set_clipboard`.
unfoldable pub osc52_message : List ℕ → List ℕ
osc52_message text = (27 ∷ codes "]52;c;") ++ base64_encode text ++ 7 ∷ []
