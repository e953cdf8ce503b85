-- ===== src/Runtime/Hex.antt =====
-- `hex_encode` and `hex_decode` of crates/chanvoy-core/src/runtime/identity.rs.
use chanvoy.Base.{
  ℕ, ◌+◌, ◌-◌, ◌*◌, ◌/◌, ◌%◌, ◌<◌, ◌≤◌, List, [], ◌∷◌, Option, none, some, Bool, true, false, ◌&&◌,
  ◌||◌, not, leb, ltb, ◌==◌, if◌then◌else◌, all, length, All, ◌≡◌, refl, arith,
}
use chanvoy.Base.Texts.{Text, is_ascii_digit}

unfoldable pub is_lower_hex : ℕ → Bool
unfolding is_ascii_digit
is_lower_hex b = is_ascii_digit b || (leb b'a' b && leb b b'f')

-- `DIGITS[value]` for a value below 16.
unfoldable pub digit : ℕ → ℕ
digit value = if ltb value 10 then value + b'0' else value - 10 + b'a'

unfoldable pub hex_encode : List ℕ → Text
unfolding digit
hex_encode [] = []
hex_encode (b ∷ bytes) = digit (b / 16) ∷ digit (b % 16) ∷ hex_encode bytes

unfoldable pub nibble : ℕ → ℕ
nibble b = if leb b b'9' then b - b'0' else b - b'a' + 10

-- The pairs of an even number of digits.
unfoldable pub decode_pairs : Text → List ℕ
unfolding nibble
decode_pairs [] = []
decode_pairs (a ∷ []) = []
decode_pairs (a ∷ b ∷ rest) = (nibble a * 16 + nibble b) ∷ decode_pairs rest

unfoldable pub hex_decode : Text → Option (List ℕ)
unfolding is_lower_hex decode_pairs
hex_decode text =
    if ltb 8192 (length text) || not (length text % 2 == 0) || not (all is_lower_hex text)
    then none
    else some (decode_pairs text)

decode_pairs-hex_encode :
    (bytes : List ℕ) → All (λ b. b < 256) bytes → decode_pairs (hex_encode bytes) ≡ bytes
unfolding decode_pairs hex_encode
decode_pairs-hex_encode [] h = refl
decode_pairs-hex_encode (b ∷ bytes) h = ground (arith, decode_pairs-hex_encode bytes h.1)

all-hex_encode :
    (bytes : List ℕ) → All (λ b. b < 256) bytes → all is_lower_hex (hex_encode bytes) ≡ true
unfolding hex_encode is_lower_hex
all-hex_encode [] h = refl
all-hex_encode (b ∷ bytes) h = ground (arith, all-hex_encode bytes h.1)

length-hex_encode : (bytes : List ℕ) → length (hex_encode bytes) ≡ length bytes * 2
unfolding hex_encode
length-hex_encode [] = omega arith
length-hex_encode (b ∷ bytes) = omega (arith, length-hex_encode bytes)

short_text : (n : ℕ) → n ≤ 4096 → ltb 8192 (n * 2) ≡ false
short_text n h = ground arith

even_text : (n : ℕ) → (n * 2 % 2 == 0) ≡ true
even_text n = ground arith

-- Up to 4096 bytes are read back from their hexadecimal text.
pub hex_decode-hex_encode :
    (bytes : List ℕ)
    → All (λ b. b < 256) bytes
    → length bytes ≤ 4096
    → hex_decode (hex_encode bytes) ≡ some bytes
unfolding hex_decode
hex_decode-hex_encode bytes h short =
    rw
      (
        length-hex_encode bytes,
        short_text (length bytes) short,
        even_text (length bytes),
        all-hex_encode bytes h,
        decode_pairs-hex_encode bytes h,
      )
      refl
