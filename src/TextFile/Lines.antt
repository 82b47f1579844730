-- ===== src/TextFile/Lines.antt =====
-- A line that was written is read back.
use d4x.Prelude.{
  ℕ, zero, suc, Bool, true, false, ◌&&◌, not, Option, some, List, [], ◌∷◌, ◌++◌, ◌≡◌, refl, ltb,
  ◌==◌, if◌then◌else◌, Bytes, length, arith, append_assoc,
}
use d4x.Decimal.{print_number, is_digit}
use d4x.Decimal.RoundTrip.{Numeral, numeral, IsDigit}
use d4x.TextFile.{
  line, store, read_line, f_rstr, lower, equal_uncase, ◌then◌, f_wstr, f_wstr_lf,
  write_named_integer, max_len,
}

-- A text that fits in a buffer of that size, with its line feed and the zero behind it, and has no
-- line feed within.
unfoldable pub fits : ℕ → Bytes → Bool
fits n [] = ltb 0 n
fits zero (c ∷ s) = false
fits (suc n) (c ∷ s) = not (c == 10) && fits n s

pub read_line-lf :
    (i : ℕ) (s rest : Bytes)
    → fits i s ≡ true
    → read_line i (s ++ 10 ∷ rest) ≡ line s (suc (length s)) rest
unfolding read_line line store fits
read_line-lf zero [] rest h = ground arith
read_line-lf (suc i) [] rest h = refl
read_line-lf zero (c ∷ s) rest h = ground arith
read_line-lf (suc i) (c ∷ s) rest h = ground (arith, read_line-lf i s rest)

-- f_rstr with a buffer of MAX_LEN bytes reads a text that fits in it up to the line feed behind it:
-- it returns one more than the length and leaves the file behind the line feed.
pub f_rstr-lf :
    (s rest : Bytes)
    → fits 4047 s ≡ true
    → f_rstr max_len (s ++ 10 ∷ rest) ≡ line s (suc (length s)) rest
unfolding f_rstr
f_rstr-lf s rest h = read_line-lf 4047 s rest h

-- A numeral is not the name of a field.
pub equal_uncase-Numeral :
    (s : Bytes) (c : ℕ) (t : Bytes)
    → Numeral s
    → (is_digit (lower c)) ≡ false
    → equal_uncase s (c ∷ t) ≡ false
unfolding equal_uncase lower is_digit IsDigit
equal_uncase-Numeral _ c t (numeral d s p a) h = ground arith

-- A device that takes all that is written to it.
unfoldable pub Appends : (Bytes → Bytes → Option Bytes) → Type 0
Appends w = (file s : Bytes) → w file s ≡ some (file ++ s)

-- Those lines, and what follows them.
unfoldable pub put : List Bytes → Bytes → Bytes
put [] rest = rest
put (s ∷ ls) rest = s ++ 10 ∷ put ls rest

pub put-append : (ls ms : List Bytes) (rest : Bytes) → put (ls ++ ms) rest ≡ put ls (put ms rest)
unfolding put
put-append [] ms rest = refl
put-append (s ∷ ls) ms rest = rw (put-append ls ms rest) refl

-- What the function adds to the file: those lines.
unfoldable pub Writes : (Bytes → Option Bytes) → List Bytes → Type 0
Writes w ls = (file : Bytes) → w file ≡ some (file ++ put ls [])

put_rest : (ls : List Bytes) (rest : Bytes) → put ls [] ++ rest ≡ put ls rest
unfolding put
put_rest [] rest = refl
put_rest (s ∷ ls) rest = rw (append_assoc s (10 ∷ put ls []) rest, put_rest ls rest) refl

pub Writes-then :
    (w v : Bytes → Option Bytes) (ls ms : List Bytes)
    → Writes w ls
    → Writes v ms
    → Writes (λ file. (w file) then v) (ls ++ ms)
unfolding Writes ◌then◌
Writes-then w v ls ms p q file =
    rw
      (
        p file,
        q (file ++ put ls []),
        append_assoc file (put ls []) (put ms []),
        put_rest ls (put ms []),
        put-append ls ms [],
      )
      refl

module _ (sys_write : Bytes → Bytes → Option Bytes) (appends : Appends sys_write) where
  pub f_wstr_lf-Writes : (s : Bytes) → Writes (f_wstr_lf sys_write s) (s ∷ [])
  unfolding f_wstr_lf f_wstr ◌then◌ Appends Writes put
  f_wstr_lf-Writes s file = rw (appends file s, appends (file ++ s) (10 ∷ []), append_assoc) refl

  pub write_named_integer-Writes :
      (name : Bytes) (num : ℕ)
      → Writes (write_named_integer sys_write name num) (name ∷ print_number num ∷ [])
  unfolding write_named_integer
  write_named_integer-Writes name num =
      Writes-then (f_wstr_lf sys_write name) (f_wstr_lf sys_write (print_number num)) (name ∷ [])
        (print_number num ∷ []) (f_wstr_lf-Writes name) (f_wstr_lf-Writes (print_number num))
