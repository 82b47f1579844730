-- ===== src/Schedule/Lines.antt =====
-- The lines of a saved action and how load reads each of them.
use d4x.Prelude.{
  ℕ, zero, suc, ◌+◌, ◌/◌, ◌%◌, ◌^◌, ◌≤◌, ◌<◌, Bool, true, false, ◌&&◌, some, List, [], ◌∷◌, ◌≡◌,
  refl, leb, ltb, Bytes, codes, length, length-append, arith, All,
}
use d4x.Decimal.{print_number, scan_number, scan_digits, digits, is_digit}
use d4x.Decimal.RoundTrip.{
  Numeral, numeral, IsDigit, print_number-Numeral, scan_number-print_number, digits-IsDigit,
}
use d4x.TextFile.{line, max_len, f_rstr, equal_uncase, lower}
use d4x.TextFile.Lines.{fits, f_rstr-lf, put}
use d4x.Scheduler.{Retries, unlimited, left}
use d4x.Schedule.{Entry, Formats, print_retries, scan_retries, Field, Tried, going}
use d4x.Schedule.Files.{go_on, try_field, try_fields, sv_parse_file, parsed}

-- Does the text begin with a digit or a minus sign, or with a letter?
unfoldable pub is_value : Bytes → Bool
is_value [] = false
is_value (c ∷ s) = leb 45 c && leb c 57

unfoldable pub is_name : Bytes → Bool
is_name [] = false
is_name (c ∷ s) = ltb 57 (lower c)

pub value≢name : (s t : Bytes) → is_value s ≡ true → is_name t ≡ true → equal_uncase s t ≡ false
unfolding is_value is_name equal_uncase lower
value≢name [] t h k = ground arith
value≢name (c ∷ s) [] h k = refl
value≢name (c ∷ s) (d ∷ t) h k = ground arith

pub is_value-Numeral : (s : Bytes) → Numeral s → is_value s ≡ true
unfolding is_value IsDigit is_digit
is_value-Numeral _ (numeral d s p a) = ground arith

pub is_value-print_retries : (r : Retries) → is_value (print_retries r) ≡ true
unfolding is_value print_retries
is_value-print_retries unlimited = refl
is_value-print_retries (left n) = is_value-Numeral (print_number n) (print_number-Numeral n)

scan_retries-Numeral :
    (s : Bytes) (n : ℕ) → Numeral s → scan_number s ≡ some n → scan_retries s ≡ some (left n)
unfolding scan_retries IsDigit is_digit
scan_retries-Numeral _ n (numeral d s p a) h = ground arith

pub scan_retries-print_retries : (r : Retries) → scan_retries (print_retries r) ≡ some r
unfolding print_retries scan_retries scan_number scan_digits is_digit
scan_retries-print_retries unlimited = refl
scan_retries-print_retries (left n) =
    scan_retries-Numeral (print_number n) n (print_number-Numeral n) (scan_number-print_number n)

length-digits : (k fuel n : ℕ) → n < 10 ^ k → 0 < k → length (digits fuel n) ≤ k
unfolding digits
length-digits zero fuel n h p = absurd (omega arith)
length-digits (suc k) zero n h p = omega arith
length-digits (suc zero) (suc fuel) n h p = ground arith
length-digits (suc (suc k)) (suc fuel) n h p = ground (
  arith,
  length-digits (suc k) fuel (n / 10),
  length-append (digits fuel (n / 10)) ((48 + n % 10) ∷ []),
)

fits-digits : (k : ℕ) (s : Bytes) → All IsDigit s → length s < k → fits k s ≡ true
unfolding fits IsDigit is_digit
fits-digits k [] a h = ground arith
fits-digits zero (c ∷ s) a h = absurd (omega arith)
fits-digits (suc k) (c ∷ s) (p, a) h = ground (arith, fits-digits k s a)

-- A number of 64 bits fits in the buffer.
pub fits-print_number : (n : ℕ) → n < 2 ^ 64 → fits 4047 (print_number n) ≡ true
unfolding print_number
fits-print_number n h =
    fits-digits 4047 (digits (suc n) n) (digits-IsDigit (suc n) n)
      (omega (arith, length-digits 20 (suc n) n))

module _ {Url Download : Type 0} (fmt : Formats Url Download) where
  -- No row matches a value.
  pub try_fields-value :
      (rows : List (Bytes × Field)) (s : Bytes) (e : Entry Url Download) (file : Bytes)
      → is_value s ≡ true
      → All (λ row. is_name row.0 ≡ true) rows
      → try_fields fmt rows s e file ≡ going e file
  unfolding try_fields
  try_fields-value [] s e file h a = refl
  try_fields-value ((name, field) ∷ rows) s e file h (p, a) =
      rw (value≢name s name h p, try_fields-value rows s e file h a) refl

  -- A row that matches, whose value is read; no later row matches the value.
  pub try_fields-hit :
      (name : Bytes) (field : Field) (rows : List (Bytes × Field)) (e : Entry Url Download)
      (file s : Bytes) (e' : Entry Url Download) (rest : Bytes)
      → equal_uncase name name ≡ true
      → ((k : Bytes → Entry Url Download → Bytes → Tried Url Download)
          → try_field fmt k field name e file ≡ go_on fmt k (sv_parse_file fmt field name e file))
      → sv_parse_file fmt field name e file ≡ parsed fmt s e' rest
      → is_value s ≡ true
      → All (λ row. is_name row.0 ≡ true) rows
      → try_fields fmt ((name, field) ∷ rows) name e file ≡ going e' rest
  unfolding try_fields go_on parsed
  try_fields-hit name field rows e file s e' rest h f p v a =
      rw (h, f (try_fields fmt rows), p, try_fields-value rows s e' rest v a) refl

-- The lines that d4xSchedAction::save writes.
unfoldable pub common_lines : {Url Download : Type 0} → Entry Url Download → List Bytes
common_lines e =
    codes "start_time"
    ∷ print_number e.start_time
    ∷ codes "period"
    ∷ print_number e.period
    ∷ codes "retries"
    ∷ print_retries e.retries
    ∷ codes "end."
    ∷ []

-- A line is read off the front.
pub f_rstr-put :
    (s : Bytes) (ls : List Bytes) (rest : Bytes)
    → fits 4047 s ≡ true
    → f_rstr max_len (put (s ∷ ls) rest) ≡ line s (suc (length s)) (put ls rest)
unfolding put
f_rstr-put s ls rest h = f_rstr-lf s (put ls rest) h
