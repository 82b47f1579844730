-- ===== src/Strings.antt =====
-- main/locstr.cc: comparisons of the beginnings of strings, sum_strings and int_to_strin_len. The
-- strings are not NULL; for NULL the comparisons return 0 at once.
pub mod Begin
pub mod Replace
pub mod Sizes
pub mod Case
mod Tests
use d4x.Prelude.{
  ℕ, zero, suc, ◌+◌, ◌/◌, Bool, true, false, ◌&&◌, List, [], ◌∷◌, ◌++◌, ◌==◌, leb, ltb,
  if◌then◌else◌, Bytes, length,
}
use d4x.TextFile.{lower}

-- `!strncmp (a, b, n)` and `!strncasecmp (a, b, n)`, of what `fold` makes of the bytes.
unfoldable pub same_first : (ℕ → ℕ) → ℕ → Bytes → Bytes → Bool
same_first fold zero a b = true
same_first fold (suc n) [] [] = true
same_first fold (suc n) [] (d ∷ b) = false
same_first fold (suc n) (c ∷ a) [] = false
same_first fold (suc n) (c ∷ a) (d ∷ b) = (fold c == fold d) && same_first fold n a b

-- equal_first and equal_first_uncase
unfoldable pub equal_first_by : (ℕ → ℕ) → Bytes → Bytes → Bool
unfolding same_first
equal_first_by fold [] b = false
equal_first_by fold (c ∷ a) [] = false
equal_first_by fold (c ∷ a) (d ∷ b) =
    let la = suc (length a) in
    let lb = suc (length b) in same_first fold (if ltb la lb then la else lb) (c ∷ a) (d ∷ b)

unfoldable pub equal_first : Bytes → Bytes → Bool
unfolding equal_first_by
equal_first a b = equal_first_by (λ c. c) a b

unfoldable pub equal_first_uncase : Bytes → Bytes → Bool
unfolding equal_first_by
equal_first_uncase a b = equal_first_by lower a b

-- begin_string
unfoldable pub begin_string : Bytes → Bytes → Bool
unfolding equal_first
begin_string str begin = equal_first str begin && leb (length begin) (length str)

-- begin_string_uncase
unfoldable pub begin_string_uncase : Bytes → Bytes → Bool
unfolding equal_first_uncase
begin_string_uncase str begin = equal_first_uncase str begin && leb (length begin) (length str)

-- The first loop of sum_strings: the size of the buffer.
unfoldable pub sum_size : ℕ → List Bytes → ℕ
sum_size l [] = l
sum_size l (s ∷ args) = sum_size (l + length s) args

-- The second loop of sum_strings: what strcat has put together.
unfoldable pub sum_loop : Bytes → List Bytes → Bytes
sum_loop r [] = r
sum_loop r (s ∷ args) = sum_loop (r ++ s) args

-- sum_strings: its buffer's size and its result; `args` are the arguments in front of NULL.
unfoldable pub sum_strings : Bytes → List Bytes → ℕ × Bytes
unfolding sum_size sum_loop
sum_strings a args = (sum_size (length a + 1) args, sum_loop a args)

-- The loop of int_to_strin_len; `fuel` is at least the number.
unfoldable pub len_loop : ℕ → ℕ → ℕ → ℕ
len_loop zero num len = len
len_loop (suc fuel) num len =
    let more = len_loop fuel (num / 10) (len + 1) in if num == 0 then len else more

-- int_to_strin_len of a number by its sign and its absolute value; C divides towards zero.
unfoldable pub int_to_strin_len : Bool → ℕ → ℕ
unfolding len_loop
int_to_strin_len negative num = len_loop num (num / 10) (if negative then 2 else 1)
