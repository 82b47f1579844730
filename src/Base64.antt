-- ===== src/Base64.antt =====
-- main/base64.cc: the encoding of a user's name and password.
-- A string is the list of its bytes without the terminating zero.
mod Sextets
mod RoundTrip
mod Tests
use Prim.Native.Nat.{bit_and, bit_or}
use d4x.Prelude.{ℕ, zero, suc, ◌*◌, ◌/◌, List, [], ◌∷◌, ◌++◌, Bytes, codes}

-- Table64
abbrev pub table64 : Bytes
table64 = codes "ABCDEFGHIJKLMNOPQRSTUVWXYZabcdefghijklmnopqrstuvwxyz0123456789+/"

-- `Table64[i]`; no index is out of range.
pub digit : Bytes → ℕ → ℕ
digit [] i = 0
digit (c ∷ t) zero = c
digit (c ∷ t) (suc i) = digit t i

-- What three_to_four stores: the four indices, and the digits that replace them.
pub sextet0 : ℕ → ℕ
sextet0 a = bit_and (a / 4) 63

pub sextet1 : ℕ → ℕ → ℕ
sextet1 a b = bit_and (bit_or (a * 16) (b / 16)) 63

pub sextet2 : ℕ → ℕ → ℕ
sextet2 b c = bit_and (bit_or (b * 4) (c / 64)) 63

pub sextet3 : ℕ → ℕ
sextet3 c = bit_and c 63

pub three_to_four : ℕ → ℕ → ℕ → Bytes
unfolding digit sextet0 sextet1 sextet2 sextet3
three_to_four a b c =
    digit table64 (sextet0 a)
    ∷ digit table64 (sextet1 a b)
    ∷ digit table64 (sextet2 b c)
    ∷ digit table64 (sextet3 c)
    ∷ []

-- `for (i+=1;i<4;four[i++]='=')`: from the given index on the digits are replaced.
pub pad : ℕ → Bytes → Bytes
pad i [] = []
pad zero (c ∷ four) = b'=' ∷ pad zero four
pad (suc i) (c ∷ four) = c ∷ pad i four

-- string_to_base64: the loop over three bytes at a time, and what is left, filled up with zeros.
pub string_to_base64 : Bytes → Bytes
unfolding three_to_four pad
string_to_base64 [] = []
string_to_base64 (a ∷ []) = pad 2 (three_to_four a 0 0)
string_to_base64 (a ∷ b ∷ []) = pad 3 (three_to_four a b 0)
string_to_base64 (a ∷ b ∷ c ∷ what) = three_to_four a b c ++ string_to_base64 what
