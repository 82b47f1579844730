-- ===== src/Decimal.antt =====
-- Numbers as text, the way `%d` and `%ld` print and scan them, used by write_named_integer and
-- write_named_time of main/locstr.cc and by sv_parse_file of main/savedvar.cc.
-- Overflow of the scanned number is not modelled; the C standard leaves it undefined.
pub mod RoundTrip
use d4x.Prelude.{
  ℕ, zero, suc, ◌+◌, ◌-◌, ◌*◌, ◌/◌, ◌%◌, ◌≤◌, ◌<◌, Bool, true, false, ◌&&◌, ◌||◌, not, Option, none,
  some, List, [], ◌∷◌, ◌++◌, ◌≡◌, refl, ltb, leb, ◌==◌, if◌then◌else◌, Bytes, arith, length,
}

-- The digits of a number; `fuel` is at least the number.
unfoldable pub digits : ℕ → ℕ → Bytes
digits zero n = []
digits (suc fuel) n =
    let front = digits fuel (n / 10) in
    if ltb n 10 then (48 + n) ∷ [] else front ++ (48 + n % 10) ∷ []

-- `%d` and `%ld` of a number that is not negative.
unfoldable pub print_number : ℕ → Bytes
unfolding digits
print_number n = digits (suc n) n

unfoldable pub is_digit : ℕ → Bool
is_digit c = leb 48 c && leb c 57

-- The number that the digits continue, up to the first byte that is none.
unfoldable pub scan_digits : ℕ → Bytes → ℕ
unfolding is_digit
scan_digits n [] = n
scan_digits n (c ∷ s) =
    let more = scan_digits (10 * n + (c - 48)) s in if is_digit c then more else n

-- `sscanf (buf, "%d", &n)` for a text that does not begin with white space or a sign; nothing is
-- stored if it does not begin with a digit.
unfoldable pub scan_number : Bytes → Option ℕ
unfolding scan_digits is_digit
scan_number [] = none
scan_number (c ∷ s) = if is_digit c then some (scan_digits 0 (c ∷ s)) else none
