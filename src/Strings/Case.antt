-- ===== src/Strings/Case.antt =====
-- main/locstr.cc: string_to_low, equal and string_ended in their forms, and get_permisions_from_int.
use d4x.Prelude.{
  ℕ, ◌+◌, ◌-◌, ◌*◌, ◌/◌, ◌<◌, arith, Bool, true, false, ◌&&◌, [], ◌∷◌, ◌==◌, leb, ltb,
  if◌then◌else◌, Bytes, length, drop, ◌≡◌, refl,
}
use d4x.TextFile.{lower, equal_uncase}
use d4x.Strings.{same_first}

-- One byte of string_to_low.
unfoldable pub to_low : ℕ → ℕ
to_low c = if leb b'A' c && leb c b'Z' then c + (b'a' - b'A') else c

-- string_to_low
unfoldable pub string_to_low : Bytes → Bytes
unfolding to_low
string_to_low [] = []
string_to_low (c ∷ what) = to_low c ∷ string_to_low what

-- string_to_low up to a byte.
unfoldable pub string_to_low_until : ℕ → Bytes → Bytes
unfolding to_low
string_to_low_until delim [] = []
string_to_low_until delim (c ∷ what) =
    let more = to_low c ∷ string_to_low_until delim what in if c == delim then c ∷ what else more

-- equal of two strings that are not NULL.
unfoldable pub equal : Bytes → Bytes → Bool
equal [] [] = true
equal [] (d ∷ b) = false
equal (c ∷ a) [] = false
equal (c ∷ a) (d ∷ b) = (c == d) && equal a b

-- string_ended and string_ended_uncase: is the result 0?
unfoldable pub string_ended_by : (ℕ → ℕ) → Bytes → Bytes → Bool
unfolding same_first
string_ended_by fold ended what =
    let a = length ended in
    let b = length what in
    let least = if ltb a b then a else b in
    same_first fold least (drop (a - least) ended) (drop (b - least) what)

unfoldable pub string_ended : Bytes → Bytes → Bool
unfolding string_ended_by
string_ended ended what = string_ended_by (λ c. c) ended what

unfoldable pub string_ended_uncase : Bytes → Bytes → Bool
unfolding string_ended_by
string_ended_uncase ended what = string_ended_by lower ended what

-- Two strings are equal for equal_uncase exactly if string_to_low makes them equal for equal.
pub equal_uncase-string_to_low :
    (a b : Bytes) → equal_uncase a b ≡ equal (string_to_low a) (string_to_low b)
unfolding equal_uncase equal string_to_low to_low lower
equal_uncase-string_to_low [] [] = refl
equal_uncase-string_to_low [] (d ∷ b) = refl
equal_uncase-string_to_low (c ∷ a) [] = refl
equal_uncase-string_to_low (c ∷ a) (d ∷ b) = rw (equal_uncase-string_to_low a b) refl

-- get_permisions_from_int of a number that is not negative.
unfoldable pub get_permisions_from_int : ℕ → ℕ
get_permisions_from_int a =
    let a1 = a / 100 in
    let a2 = (a - a1 * 100) / 10 in let a3 = a - a1 * 100 - a2 * 10 in a1 * 64 + a2 * 8 + a3

-- The decimal digits of a number are read as octal ones.
pub get_permisions_from_int_lem :
    (u g o : ℕ)
    → g < 10
    → o < 10
    → get_permisions_from_int (100 * u + 10 * g + o) ≡ 64 * u + 8 * g + o
unfolding get_permisions_from_int
get_permisions_from_int_lem u g o p q = omega arith
