-- ===== src/Hex/RoundTrip.antt =====
-- What hexed_string and unparse_percents write is read back.
use d4x.Prelude.{
  ℕ, ◌/◌, ◌%◌, ◌<◌, ◌≡◌, ◌≢◌, refl, ap, ◌∙◌, inl, inr, true, false, [], ◌∷◌, ltb, ◌==◌, arith, All,
  Bool-cases, Bytes, length, codes,
}
use d4x.Hex.{
  convert_pair, dec_to_hex, has, is_hexed, escape, hexed_string, unhexed_string, is_unparsed,
  unparsed_len, unparse_percents, parse_loop, string_of, parse_percents,
}
use d4x.Hex.Digits.{convert_pair-dec_to_hex, percent-dec_to_hex}

-- The bytes that a C string can hold.
abbrev pub IsText : Bytes → Type 0
IsText = All (λ c. (0 < c) × (c < 256))

not_percent : (r : ℕ) → is_hexed r ≡ false → (r == b'%') ≡ false
unfolding is_hexed
not_percent r h = ground arith

-- One step of unhexed_string.
pub unhexed_copy :
    (c : ℕ) (s : Bytes) → (c == b'%') ≡ false → unhexed_string (c ∷ s) ≡ c ∷ unhexed_string s
unfolding unhexed_string
unhexed_copy c [] h = refl
unhexed_copy c (a ∷ []) h = refl
unhexed_copy c (a ∷ b ∷ []) h = rw h
unhexed_copy c (a ∷ b ∷ d ∷ s) h = rw h

unhexed_pair :
    (a b : ℕ) (s : Bytes)
    → ltb (convert_pair a b) 256 ≡ true
    → (convert_pair a b == 0) ≡ false
    → unhexed_string (b'%' ∷ a ∷ b ∷ s) ≡ convert_pair a b ∷ unhexed_string s
unfolding unhexed_string
unhexed_pair a b [] h k = rw (h, k)
unhexed_pair a b (d ∷ s) h k = rw (h, k)

unhexed_escape :
    (r : ℕ) (s : Bytes) → 0 < r → r < 256 → unhexed_string (escape r s) ≡ r ∷ unhexed_string s
unfolding escape
unhexed_escape r s p h =
    let e = convert_pair-dec_to_hex r h in
    unhexed_pair (dec_to_hex (r / 16)) (dec_to_hex (r % 16)) s (rw e (ground arith))
      (rw e (ground arith))
    ∙ ap (λ c. c ∷ unhexed_string s) e

-- Reading back what hexed_string writes gives the string.
pub unhexed_string-hexed_string : (s : Bytes) → IsText s → unhexed_string (hexed_string s) ≡ s
unfolding hexed_string
unhexed_string-hexed_string [] h = unfold unhexed_string in refl
unhexed_string-hexed_string (r ∷ s) ((p, q), h) = elim (Bool-cases (is_hexed r)) [
  | inl e ↦
      rw e
        (unhexed_escape r (hexed_string s) p q ∙ ap (λ u. r ∷ u) (unhexed_string-hexed_string s h))
  | inr e ↦ rw e (
      unhexed_copy r (hexed_string s) (not_percent r e)
      ∙ ap (λ u. r ∷ u) (unhexed_string-hexed_string s h))
]

-- Printable, no blank, and none of the characters : < > ~
abbrev pub IsPlain : ℕ → Type 0
IsPlain c = (b' ' < c) × (c < 123) × (has (codes ":<>~ ") c ≡ false)

digit-IsPlain : (d : ℕ) → d < 16 → IsPlain (dec_to_hex d)
unfolding dec_to_hex
digit-IsPlain d h = ground arith

copy-IsPlain : (r : ℕ) → is_hexed r ≡ false → IsPlain r
unfolding is_hexed
copy-IsPlain r h = ground arith

-- What hexed_string writes for a string is plain ASCII without blanks, and without : < > and ~.
pub hexed_string-IsPlain : (s : Bytes) → IsText s → All IsPlain (hexed_string s)
unfolding hexed_string
hexed_string-IsPlain [] h = tt
hexed_string-IsPlain (r ∷ s) ((p, q), h) = elim (Bool-cases (is_hexed r)) [
  | inl e ↦ rw e (
      unfold escape in
      (
        (omega arith, omega arith, refl),
        (
          digit-IsPlain (r / 16) (omega arith),
          (digit-IsPlain (r % 16) (omega arith), hexed_string-IsPlain s h),
        ),
      ))
  | inr e ↦ rw e (copy-IsPlain r e, hexed_string-IsPlain s h)
]

parse_copy : (c : ℕ) (s : Bytes) → (c == b'%') ≡ false → parse_loop (c ∷ s) ≡ c ∷ parse_loop s
unfolding parse_loop
parse_copy c [] h = refl
parse_copy c (a ∷ []) h = refl
parse_copy c (a ∷ b ∷ s) h = rw h

parse_escape : (r : ℕ) (s : Bytes) → r < 256 → parse_loop (escape r s) ≡ r ∷ parse_loop s
unfolding parse_loop escape
parse_escape r s h = rw (percent-dec_to_hex r h)

parse-unparse : (s : Bytes) → IsText s → All (λ c. c ≢ b'%') s → parse_loop (unparse_percents s) ≡ s
unfolding unparse_percents
parse-unparse [] h k = unfold parse_loop in refl
parse-unparse (r ∷ s) ((p, q), h) (k, ks) = elim (Bool-cases (is_unparsed r)) [
  | inl e ↦ rw e (parse_escape r (unparse_percents s) q ∙ ap (λ u. r ∷ u) (parse-unparse s h ks))
  | inr e ↦
      rw e
        (parse_copy r (unparse_percents s) (ground arith) ∙ ap (λ u. r ∷ u) (parse-unparse s h ks))
]

string_of-text : (s : Bytes) → IsText s → string_of s ≡ s
unfolding string_of
string_of-text [] h = refl
string_of-text (c ∷ s) ((p, q), h) = ground (arith, string_of-text s h)

-- parse_percents reads back what unparse_percents writes for a string without '%', which unparse_percents
-- does not escape.
pub parse_percents-unparse_percents :
    (s : Bytes) → IsText s → All (λ c. c ≢ b'%') s → parse_percents (unparse_percents s) ≡ s
unfolding parse_percents
parse_percents-unparse_percents s h k = rw (parse-unparse s h k) (string_of-text s h)

-- The first loop of unparse_percents counts what the second one writes.
pub length-unparse_percents : (s : Bytes) → length (unparse_percents s) ≡ unparsed_len s
unfolding unparse_percents unparsed_len escape
length-unparse_percents [] = refl
length-unparse_percents (c ∷ s) = ground (arith, length-unparse_percents s)

pub unhexed_none : unhexed_string [] ≡ []
unfolding unhexed_string
unhexed_none = refl
