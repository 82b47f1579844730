-- ===== src/Decimal/RoundTrip.antt =====
-- What is printed is scanned again.
use d4x.Prelude.{
  ℕ, zero, suc, ◌+◌, ◌-◌, ◌*◌, ◌/◌, ◌%◌, ◌<◌, true, some, [], ◌∷◌, ◌++◌, if_intro, ltb→lt, ◌≡◌,
  arith, All, All-append, Bytes, ltb, ap, ◌∙◌,
}
use d4x.Decimal.{digits, print_number, is_digit, scan_digits, scan_number}

unfoldable pub IsDigit : ℕ → Type 0
IsDigit c = is_digit c ≡ true

pub IsDigit-48 : (d : ℕ) → d < 10 → IsDigit (48 + d)
unfolding IsDigit is_digit
IsDigit-48 d h = ground arith

pub digits-IsDigit : (fuel n : ℕ) → All IsDigit (digits fuel n)
unfolding digits
digits-IsDigit zero n = tt
digits-IsDigit (suc fuel) n =
    if_intro (All IsDigit) (ltb n 10) (λ h. (IsDigit-48 n (ltb→lt n 10 h), tt))
      λ h.
        All-append IsDigit (digits fuel (n / 10)) ((48 + n % 10) ∷ [])
          (digits-IsDigit fuel (n / 10)) (IsDigit-48 (n % 10) (omega arith), tt)

scan-append :
    (n d : ℕ) (s : Bytes)
    → All IsDigit s
    → d < 10
    → scan_digits n (s ++ (48 + d) ∷ []) ≡ 10 * scan_digits n s + d
unfolding scan_digits IsDigit is_digit
scan-append n d [] a h = ground arith
scan-append n d (c ∷ s) (p, a) h = ground (arith, scan-append (10 * n + (c - 48)) d s a h)

scan-digits : (fuel n : ℕ) → n < fuel → scan_digits 0 (digits fuel n) ≡ n
unfolding digits scan_digits is_digit
scan-digits zero n h = absurd (omega arith)
scan-digits (suc fuel) n h = ground (
  arith,
  scan-digits fuel (n / 10),
  scan-append 0 (n % 10) (digits fuel (n / 10)) (digits-IsDigit fuel (n / 10)),
)

-- A printed number begins with a digit.
pub data Numeral : Bytes → Type 0 where
  numeral : (d : ℕ) (s : Bytes) → IsDigit d → All IsDigit s → Numeral (d ∷ s)

Numeral-append : (s t : Bytes) → Numeral s → All IsDigit t → Numeral (s ++ t)
Numeral-append _ t (numeral d s p a) q = numeral d (s ++ t) p (All-append IsDigit s t a q)

digits-Numeral : (fuel n : ℕ) → n < fuel → Numeral (digits fuel n)
unfolding digits
digits-Numeral zero n h = absurd (omega arith)
digits-Numeral (suc fuel) n h =
    if_intro Numeral (ltb n 10) (λ k. numeral (48 + n) [] (IsDigit-48 n (ltb→lt n 10 k)) tt)
      λ k.
        Numeral-append (digits fuel (n / 10)) ((48 + n % 10) ∷ [])
          (digits-Numeral fuel (n / 10) (ground arith)) (IsDigit-48 (n % 10) (omega arith), tt)

pub print_number-Numeral : (n : ℕ) → Numeral (print_number n)
unfolding print_number
print_number-Numeral n = digits-Numeral (suc n) n (omega arith)

scan-Numeral : (s : Bytes) → Numeral s → scan_number s ≡ some (scan_digits 0 s)
unfolding scan_number IsDigit
scan-Numeral _ (numeral d s p a) = ground arith

-- `%d` scans what `%d` has printed of any number that is not negative.
pub scan_number-print_number : (n : ℕ) → scan_number (print_number n) ≡ some n
unfolding print_number
scan_number-print_number n =
    scan-Numeral (print_number n) (print_number-Numeral n)
    ∙ ap some (scan-digits (suc n) n (omega arith))
