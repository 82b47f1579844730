-- ===== src/TextFile.antt =====
-- The primitive file operations of main/locstr.cc: f_rstr, f_wstr, f_wstr_lf, write_named_string,
-- write_named_integer and write_named_time, and equal_uncase. A file is the bytes that are still
-- to be read, or those written so far; a text has no zero byte. `write` of the operating system is
-- the parameter `sys_write`, with `none` for its negative result.
pub mod Lines
use d4x.Prelude.{
  ℕ, zero, suc, ◌+◌, Bool, true, false, ◌&&◌, Option, none, some, List, [], ◌∷◌, ◌++◌, leb, ◌==◌,
  if◌then◌else◌, Bytes, codes,
}
use d4x.Decimal.{print_number}

-- MAX_LEN of main/var.h.
abbrev pub max_len : ℕ
max_len = 4048

-- What f_rstr leaves: the text in its buffer, its return value and what is left of the file.
pub record Line : Type 0 where
  pub text : Bytes
  pub count : ℕ
  pub rest : Bytes

unfoldable pub line : Bytes → ℕ → Bytes → Line
line text count rest = record { text = text; count = count; rest = rest }

unfoldable pub store : ℕ → Line → Line
store c l = record { text = c ∷ l.text; count = suc l.count; rest = l.rest }

-- The loop of f_rstr, with `i` for the bytes that still fit: when none does, one more byte is read
-- and dropped.
unfoldable pub read_line : ℕ → Bytes → Line
unfolding line store
read_line zero [] = line [] 0 []
read_line zero (c ∷ s) = line [] 0 s
read_line (suc i) [] = line [] 0 []
read_line (suc i) (c ∷ s) = let l = read_line i s in if c == 10 then line [] 1 s else store c l

-- f_rstr
unfoldable pub f_rstr : ℕ → Bytes → Line
unfolding read_line line
f_rstr zero s = line [] 0 s
f_rstr (suc zero) s = line [] 0 s
f_rstr (suc (suc max)) s = read_line (suc max) s

-- Is the result of f_rstr, which is not negative, not `> 0`?
unfoldable pub no_line : ℕ → Bool
no_line zero = true
no_line (suc n) = false

-- tolower of the C locale.
unfoldable pub lower : ℕ → ℕ
lower c = if leb 65 c && leb c 90 then c + 32 else c

-- equal_uncase of two strings that are not NULL; strcasecmp compares them in lower case.
unfoldable pub equal_uncase : Bytes → Bytes → Bool
unfolding lower
equal_uncase [] [] = true
equal_uncase [] (d ∷ t) = false
equal_uncase (c ∷ s) [] = false
equal_uncase (c ∷ s) (d ∷ t) = (lower c == lower d) && equal_uncase s t

-- The next step of a function that returns at the first failed write.
infixl 20 ◌then◌
unfoldable pub ◌then◌ : Option Bytes → (Bytes → Option Bytes) → Option Bytes
none then k = none
some file then k = k file

module _ (sys_write : Bytes → Bytes → Option Bytes) where
  -- f_wstr
  unfoldable pub f_wstr : Bytes → Bytes → Option Bytes
  f_wstr str file = sys_write file str

  -- f_wstr_lf
  unfoldable pub f_wstr_lf : Bytes → Bytes → Option Bytes
  unfolding f_wstr ◌then◌
  f_wstr_lf str file = (f_wstr str file) then (f_wstr (10 ∷ []))

  -- write_named_string; `none` is the string NULL.
  unfoldable pub write_named_string : Bytes → Option Bytes → Bytes → Option Bytes
  unfolding f_wstr_lf ◌then◌
  write_named_string name none file = some file
  write_named_string name (some str) file = (f_wstr_lf name file) then (f_wstr_lf str)

  -- write_named_integer and write_named_time, for what is not negative.
  unfoldable pub write_named_integer : Bytes → ℕ → Bytes → Option Bytes
  unfolding f_wstr_lf ◌then◌
  write_named_integer name num file = (f_wstr_lf name file) then (f_wstr_lf (print_number num))
