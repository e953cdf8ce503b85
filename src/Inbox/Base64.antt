-- ===== src/Inbox/Base64.antt =====
-- `b64url_encode` and `b64url_decode` of crates/chanvoy-core/src/wait_inbox.rs. A shift is a product
-- or a quotient, a mask a remainder, and `|` of disjoint bits a sum.
use chanvoy.Base.{
  ℕ, ◌+◌, ◌-◌, ◌*◌, ◌/◌, ◌%◌, ◌<◌, List, [], ◌∷◌, Result, ok, err, Bool, true, false, ◌&&◌, leb,
  ◌==◌, if◌then◌else◌, length, ◌≡◌, zero, ◌≢◌, refl, arith, All, ◌>>=◌, ==_iff, Bool-cases, inl,
  inr, ap, ◌∙◌, refuse_if, ◌>>◌, suc,
}
use chanvoy.Base.Texts.{Text, lit}

abbrev pub table : Text
table = lit "ABCDEFGHIJKLMNOPQRSTUVWXYZabcdefghijklmnopqrstuvwxyz0123456789-_"

-- `TABLE[index]`; every index of the encoder is below 64.
abbrev pub at : Text → ℕ → ℕ
at [] index = 0
at (c ∷ cs) index = if index == 0 then c else at cs (index - 1)

unfoldable pub symbol : ℕ → ℕ
symbol index = at table index

unfoldable pub b64url_encode : List ℕ → Text
b64url_encode [] = []
b64url_encode (a ∷ []) = symbol (a * 65536 / 262144 % 64) ∷ symbol (a * 65536 / 4096 % 64) ∷ []
b64url_encode (a ∷ b ∷ []) =
    symbol ((a * 65536 + b * 256) / 262144 % 64)
    ∷ symbol ((a * 65536 + b * 256) / 4096 % 64)
    ∷ symbol ((a * 65536 + b * 256) / 64 % 64)
    ∷ []
b64url_encode (a ∷ b ∷ c ∷ rest) =
    symbol ((a * 65536 + b * 256 + c) / 262144 % 64)
    ∷ symbol ((a * 65536 + b * 256 + c) / 4096 % 64)
    ∷ symbol ((a * 65536 + b * 256 + c) / 64 % 64)
    ∷ symbol ((a * 65536 + b * 256 + c) % 64)
    ∷ b64url_encode rest

unfoldable pub val : ℕ → Result (Unit {0}) ℕ
val c =
    if leb b'A' c && leb c b'Z'
    then ok (c - b'A')
    else if leb b'a' c && leb c b'z'
    then ok (c - b'a' + 26)
    else if leb b'0' c && leb c b'9'
    then ok (c - b'0' + 52)
    else if c == b'-'
    then ok 62
    else if c == b'_'
    then ok 63
    else err tt

-- The loop over groups of four, the last of which may be shorter.
unfoldable pub decode_groups : Text → Result (Unit {0}) (List ℕ)
decode_groups [] = ok []
decode_groups (w ∷ []) = err tt
decode_groups (w ∷ x ∷ []) = do
  p ← val w
  q ← val x
  ok ((p * 262144 + q * 4096) / 65536 % 256 ∷ [])
decode_groups (w ∷ x ∷ y ∷ []) = do
  p ← val w
  q ← val x
  r ← val y
  let n = p * 262144 + q * 4096 + r * 64
  ok (n / 65536 % 256 ∷ n / 256 % 256 ∷ [])
decode_groups (w ∷ x ∷ y ∷ z ∷ rest) = do
  p ← val w
  q ← val x
  r ← val y
  s ← val z
  tail ← decode_groups rest
  let n = p * 262144 + q * 4096 + r * 64 + s
  ok (n / 65536 % 256 ∷ n / 256 % 256 ∷ n % 256 ∷ tail)

unfoldable pub b64url_decode : Text → Result (Unit {0}) (List ℕ)
unfolding decode_groups
b64url_decode input = do refuse_if (length input % 4 == 1) tt; decode_groups input

abbrev decodes : ℕ → Result (Unit {0}) ℕ → Bool
decodes index (ok v) = v == index
decodes index (err e) = false

abbrev all_below : (ℕ → Bool) → ℕ → Bool
all_below p zero = true
all_below p (suc n) = p n && all_below p n

last_passes : (p : ℕ → Bool) (n : ℕ) → (p n && all_below p n) ≡ true → p n ≡ true
last_passes p n h = ground arith

all_below_lem : (p : ℕ → Bool) (n i : ℕ) → all_below p n ≡ true → i < n → p i ≡ true
all_below_lem p zero i h l = ground arith
all_below_lem p (suc n) i h l = elim (Bool-cases (i == n)) [
  | inl e ↦ ap p ((==_iff i n).0 e) ∙ last_passes p n h
  | inr d ↦ all_below_lem p n i (ground arith) (ground arith)
]

every_symbol-decodes : all_below (λ i. decodes i (val (symbol i))) 64 ≡ true
unfolding val symbol
every_symbol-decodes = refl

decodes_ok : (i : ℕ) (r : Result (Unit {0}) ℕ) → decodes i r ≡ true → r ≡ ok i
decodes_ok i (ok v) h = ground arith
decodes_ok i (err e) h = cc

val-symbol : (i : ℕ) → i < 64 → val (symbol i) ≡ ok i
val-symbol i l =
    decodes_ok i _ (all_below_lem (λ j. decodes j (val (symbol j))) 64 i every_symbol-decodes l)

abbrev pub IsByte : ℕ → Type 0
IsByte b = b < 256

one_byte :
    (a : ℕ)
    → a < 256
    → (a * 65536 / 262144 % 64 * 262144 + a * 65536 / 4096 % 64 * 4096) / 65536 % 256 ≡ a
one_byte a h = omega arith

long_sum :
    (n : ℕ)
    → n < 16777216
    → n / 262144 % 64 * 262144 + n / 4096 % 64 * 4096 + n / 64 % 64 * 64 + n % 64 ≡ n
long_sum n h = omega arith

three_bytes :
    (a b c : ℕ)
    → a < 256
    → b < 256
    → c < 256
    → ((a * 65536 + b * 256 + c) / 65536 % 256 ≡ a)
      × (((a * 65536 + b * 256 + c) / 256 % 256 ≡ b) × ((a * 65536 + b * 256 + c) % 256 ≡ c))
three_bytes a b c h k l = (omega arith, (omega arith, omega arith))

long_bound : (a b c : ℕ) → a < 256 → b < 256 → c < 256 → a * 65536 + b * 256 + c < 16777216
long_bound a b c h k l = omega arith

short_sum :
    (a b : ℕ)
    → a < 256
    → b < 256
    → (a * 65536 + b * 256) / 262144 % 64 * 262144
        + (a * 65536 + b * 256) / 4096 % 64 * 4096
        + (a * 65536 + b * 256) / 64 % 64 * 64
      ≡ a * 65536 + b * 256
short_sum a b h k = omega arith

short_bytes :
    (a b : ℕ)
    → a < 256
    → b < 256
    → ((a * 65536 + b * 256) / 65536 % 256 ≡ a) × ((a * 65536 + b * 256) / 256 % 256 ≡ b)
short_bytes a b h k = (omega arith, omega arith)

sextet : (n : ℕ) → n % 64 < 64
sextet n = omega arith

decode_groups-b64url_encode :
    (bytes : List ℕ) → All IsByte bytes → decode_groups (b64url_encode bytes) ≡ ok bytes
unfolding b64url_encode decode_groups
decode_groups-b64url_encode [] h = refl
decode_groups-b64url_encode (a ∷ []) h =
    rw (val-symbol _ (sextet (a * 65536 / 262144)), val-symbol _ (sextet (a * 65536 / 4096)))
      (ap (λ x. ok (x ∷ [])) (one_byte a h.0))
decode_groups-b64url_encode (a ∷ b ∷ []) h =
    rw
      (
        val-symbol _ (sextet ((a * 65536 + b * 256) / 262144)),
        val-symbol _ (sextet ((a * 65536 + b * 256) / 4096)),
        val-symbol _ (sextet ((a * 65536 + b * 256) / 64)),
      )
      (rw (short_sum a b h.0 h.1.0, (short_bytes a b h.0 h.1.0).0, (short_bytes a b h.0 h.1.0).1)
        refl)
decode_groups-b64url_encode (a ∷ b ∷ c ∷ rest) h =
    rw
      (
        val-symbol _ (sextet ((a * 65536 + b * 256 + c) / 262144)),
        val-symbol _ (sextet ((a * 65536 + b * 256 + c) / 4096)),
        val-symbol _ (sextet ((a * 65536 + b * 256 + c) / 64)),
        val-symbol _ (sextet (a * 65536 + b * 256 + c)),
        decode_groups-b64url_encode rest h.1.1.1,
      )
      (rw
        (
          long_sum (a * 65536 + b * 256 + c) (long_bound a b c h.0 h.1.0 h.1.1.0),
          (three_bytes a b c h.0 h.1.0 h.1.1.0).0,
          (three_bytes a b c h.0 h.1.0 h.1.1.0).1.0,
          (three_bytes a b c h.0 h.1.0 h.1.1.0).1.1,
        )
        refl)

length-b64url_encode : (bytes : List ℕ) → length (b64url_encode bytes) % 4 ≢ 1
unfolding b64url_encode
length-b64url_encode [] = omega arith
length-b64url_encode (a ∷ []) = omega arith
length-b64url_encode (a ∷ b ∷ []) = omega arith
length-b64url_encode (a ∷ b ∷ c ∷ rest) = omega (arith, length-b64url_encode rest)

-- Decoding the encoding of bytes gives the bytes.
pub b64url_decode-b64url_encode :
    (bytes : List ℕ) → All IsByte bytes → b64url_decode (b64url_encode bytes) ≡ ok bytes
unfolding b64url_decode
b64url_decode-b64url_encode bytes h =
    rw (decode_groups-b64url_encode bytes h) (ground (arith, length-b64url_encode bytes))
