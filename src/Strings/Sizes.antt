-- ===== src/Strings/Sizes.antt =====
-- Sizes of buffers.
use d4x.Prelude.{
  ℕ, zero, suc, ◌+◌, ◌/◌, ◌%◌, ◌<◌, Bool, true, false, List, [], ◌∷◌, ◌++◌, ◌==◌, if◌then◌else◌,
  Bytes, length, length-append, ◌≡◌, refl, arith,
}
use d4x.Decimal.{print_number, digits}
use d4x.Strings.{sum_size, sum_loop, sum_strings, len_loop, int_to_strin_len}

sum_loop_lem :
    (l : ℕ) (r : Bytes) (args : List Bytes)
    → l ≡ length r + 1
    → sum_size l args ≡ length (sum_loop r args) + 1
unfolding sum_size sum_loop
sum_loop_lem l r [] h = h
sum_loop_lem l r (s ∷ args) h =
    sum_loop_lem (l + length s) (r ++ s) args (omega (arith, length-append r s, h))

-- The buffer of sum_strings has exactly the size of the result with the zero behind it.
pub length-sum_strings :
    (a : Bytes) (args : List Bytes) → (sum_strings a args).0 ≡ length (sum_strings a args).1 + 1
unfolding sum_strings
length-sum_strings a args = sum_loop_lem (length a + 1) a args refl

len_loop_lem :
    (fuel num len : ℕ)
    → num < fuel
    → len_loop fuel num len ≡ (if num == 0 then len else len + length (digits fuel num))
unfolding len_loop digits
len_loop_lem zero num len h = absurd (omega arith)
len_loop_lem (suc fuel) num len h = ground (
  arith,
  len_loop_lem fuel (num / 10) (len + 1),
  length-append (digits fuel (num / 10)) ((48 + num % 10) ∷ []),
)

len_loop-print_number :
    (n b : ℕ) → 0 < n → len_loop n (n / 10) (b + 1) ≡ b + length (digits (suc n) n)
unfolding digits
len_loop-print_number n b h =
    ground (
      arith,
      len_loop_lem n (n / 10) (b + 1),
      length-append (digits n (n / 10)) ((48 + n % 10) ∷ []),
    )

-- int_to_strin_len is the number of characters that `%d` prints, the minus sign of a negative
-- number counted.
pub int_to_strin_len-print_number :
    (negative : Bool) (num : ℕ)
    → int_to_strin_len negative num ≡ (if negative then 1 else 0) + length (print_number num)
unfolding int_to_strin_len print_number len_loop
int_to_strin_len-print_number true zero = refl
int_to_strin_len-print_number false zero = refl
int_to_strin_len-print_number true (suc num) = len_loop-print_number (suc num) 1 (omega arith)
int_to_strin_len-print_number false (suc num) = len_loop-print_number (suc num) 0 (omega arith)
