-- ===== src/Base64/RoundTrip.antt =====
-- A decoder as RFC 4648 describes it gives back what string_to_base64 encodes, and the buffer that
-- is allocated fits.
use d4x.Prelude.{
  ℕ, ◌+◌, ◌*◌, ◌/◌, ◌%◌, ◌<◌, ◌≡◌, refl, ap, false, [], ◌∷◌, ◌==◌, if◌then◌else◌, arith, length,
  All, Bytes,
}
use d4x.Base64.{
  table64, digit, sextet0, sextet1, sextet2, sextet3, three_to_four, pad, string_to_base64,
}
use d4x.Base64.Sextets.{
  value, value-digit, digit_not_pad, sextet0_lem, sextet1_lem, sextet2_lem, sextet3_lem,
}

abbrev pub IsBytes : Bytes → Type 0
IsBytes = All (λ c. c < 256)

-- The three bytes of four digits.
byte0 : ℕ → ℕ → ℕ
byte0 w x = value w * 4 + value x / 16

byte1 : ℕ → ℕ → ℕ
byte1 x y = (value x % 16) * 16 + value y / 4

byte2 : ℕ → ℕ → ℕ
byte2 y z = (value y % 4) * 64 + value z

pub decode : Bytes → Bytes
unfolding byte0 byte1 byte2
decode [] = []
decode (w ∷ []) = []
decode (w ∷ x ∷ []) = []
decode (w ∷ x ∷ y ∷ []) = []
decode (w ∷ x ∷ y ∷ z ∷ rest) =
    if y == b'='
    then byte0 w x ∷ []
    else if z == b'='
    then byte0 w x ∷ byte1 x y ∷ []
    else byte0 w x ∷ byte1 x y ∷ byte2 y z ∷ decode rest

byte0-digit :
    (a b : ℕ)
    → a < 256
    → b < 256
    → byte0 (digit table64 (sextet0 a)) (digit table64 (sextet1 a b)) ≡ a
unfolding byte0
byte0-digit a b h k =
    let p = sextet0_lem a h in
    let q = sextet1_lem a b h k in
    omega (arith, value-digit (sextet0 a) (omega arith), value-digit (sextet1 a b) (omega arith))

byte1-digit :
    (a b c : ℕ)
    → a < 256
    → b < 256
    → c < 256
    → byte1 (digit table64 (sextet1 a b)) (digit table64 (sextet2 b c)) ≡ b
unfolding byte1
byte1-digit a b c h k l =
    let p = sextet1_lem a b h k in
    let q = sextet2_lem b c k l in
    omega (arith, value-digit (sextet1 a b) (omega arith), value-digit (sextet2 b c) (omega arith))

byte2-digit :
    (b c : ℕ)
    → b < 256
    → c < 256
    → byte2 (digit table64 (sextet2 b c)) (digit table64 (sextet3 c)) ≡ c
unfolding byte2
byte2-digit b c h k =
    let p = sextet2_lem b c h k in
    let q = sextet3_lem c k in
    omega (arith, value-digit (sextet2 b c) (omega arith), value-digit (sextet3 c) (omega arith))

not_pad2 : (b c : ℕ) → b < 256 → c < 256 → (digit table64 (sextet2 b c) == b'=') ≡ false
not_pad2 b c h k = let p = sextet2_lem b c h k in digit_not_pad (sextet2 b c) (omega arith)

not_pad3 : (c : ℕ) → c < 256 → (digit table64 (sextet3 c) == b'=') ≡ false
not_pad3 c k = let p = sextet3_lem c k in digit_not_pad (sextet3 c) (omega arith)

-- Decoding the encoding of a string of bytes gives the string.
pub decode-string_to_base64 : (s : Bytes) → IsBytes s → decode (string_to_base64 s) ≡ s
unfolding decode string_to_base64 three_to_four pad
decode-string_to_base64 [] h = refl
decode-string_to_base64 (a ∷ []) (ha, h) = ap (λ x. x ∷ []) (byte0-digit a 0 ha (omega arith))
decode-string_to_base64 (a ∷ b ∷ []) (ha, (hb, h)) =
    rw (not_pad2 b 0 hb (omega arith), byte0-digit a b ha hb, byte1-digit a b 0 ha hb (omega arith))
decode-string_to_base64 (a ∷ b ∷ c ∷ s) (ha, (hb, (hc, h))) = rw (
  not_pad2 b c hb hc,
  not_pad3 c hc,
  byte0-digit a b ha hb,
  byte1-digit a b c ha hb hc,
  byte2-digit b c hb hc,
  decode-string_to_base64 s h,
)

-- The text and its terminating zero fill the buffer that string_to_base64 allocates for them: (len/3 + int((len%3)!=0))*4 + 1 bytes.
pub length-string_to_base64 :
    (s : Bytes)
    → length (string_to_base64 s) + 1
      ≡ (length s / 3 + (if length s % 3 == 0 then 0 else 1)) * 4 + 1
unfolding string_to_base64 three_to_four pad
length-string_to_base64 [] = refl
length-string_to_base64 (a ∷ []) = refl
length-string_to_base64 (a ∷ b ∷ []) = refl
length-string_to_base64 (a ∷ b ∷ c ∷ s) = ground (arith, length-string_to_base64 s)
