-- ===== src/Hex.antt =====
-- The hexadecimal escapes of main/locstr.cc: convert_from_hex to unhexed_string.
-- A string is the list of its bytes without the terminating zero.
mod Digits
pub mod RoundTrip
mod Tests
use Prim.Native.Nat.{bit_or}
use d4x.Prelude.{
  ℕ, zero, suc, ◌+◌, ◌-◌, ◌*◌, ◌/◌, ◌%◌, Bool, true, false, ◌&&◌, ◌||◌, not, Option, none, some,
  List, [], ◌∷◌, ltb, leb, ◌==◌, if◌then◌else◌, Bytes, codes,
}

-- convert_from_hex of one character; `none` is the -1 of the code. A negative `char`, a byte from
-- 128 on, passes none of the tests, as the byte.
pub convert_from_hex : ℕ → Option ℕ
convert_from_hex c =
    if leb b'0' c && leb c b'9'
    then some (c - b'0')
    else if leb b'a' c && leb c b'f'
    then some (10 + (c - b'a'))
    else if leb b'A' c && leb c b'F'
    then some (10 + (c - b'A'))
    else none

-- convert_from_hex of two characters, 1000 where one of them is no digit.
pub convert_pair : ℕ → ℕ → ℕ
unfolding convert_from_hex
convert_pair a b = elim (convert_from_hex a) [
  | none ↦ 1000
  | some aa ↦ elim (convert_from_hex b) [ none ↦ 1000 | some bb ↦ bit_or (aa * 16) bb ]
]

-- _dec_to_hex_
unfoldable pub dec_to_hex : ℕ → ℕ
dec_to_hex d = if ltb d 10 then b'0' + d else b'A' + (d - 10)

-- `index(s,c)`: does the character stand in the string?
abbrev pub has : Bytes → ℕ → Bool
has [] c = false
has (d ∷ s) c = c == d || has s c

-- The test of hexed_string. A byte from 128 on is a negative `char`, and so below '/'.
unfoldable pub is_hexed : ℕ → Bool
is_hexed r =
    ((leb 128 r || ltb r b'/') || (ltb b'z' r || has (codes ":<>~% ") r))
    && not (has (codes ".-+&") r)

-- The three characters that stand for a byte: '%' and what convert_to_hex writes.
unfoldable pub escape : ℕ → Bytes → Bytes
unfolding dec_to_hex
escape r rest = b'%' ∷ dec_to_hex (r / 16) ∷ dec_to_hex (r % 16) ∷ rest

unfoldable pub hexed_string : Bytes → Bytes
unfolding is_hexed escape
hexed_string [] = []
hexed_string (r ∷ str) = if is_hexed r then escape r (hexed_string str) else r ∷ hexed_string str

-- The loop of unhexed_string, from a position on. An escape for zero is replaced by nothing, and
-- the position then moves past the character behind it.
unfoldable pub unhexed_string : Bytes → Bytes
unfolding convert_pair
unhexed_string [] = []
unhexed_string (c ∷ []) = c ∷ []
unhexed_string (c ∷ a ∷ []) = c ∷ a ∷ []
unhexed_string (c ∷ a ∷ b ∷ []) =
    if (c == b'%') && ltb (convert_pair a b) 256
    then (if convert_pair a b == 0 then [] else convert_pair a b ∷ [])
    else c ∷ a ∷ b ∷ []
unhexed_string (c ∷ a ∷ b ∷ d ∷ str) =
    let next = unhexed_string (a ∷ b ∷ d ∷ str) in
    let after = unhexed_string (d ∷ str) in
    let skipped = d ∷ unhexed_string str in
    if (c == b'%') && ltb (convert_pair a b) 256
    then (if convert_pair a b == 0 then skipped else convert_pair a b ∷ after)
    else c ∷ next

-- The test of unparse_percents.
pub is_unparsed : ℕ → Bool
is_unparsed r =
    ((leb 128 r || ltb r b'/') || (ltb b'z' r || has (codes ":<>~ ") r))
    && not (has (codes ".-+%") r)

-- The first loop of unparse_percents.
pub unparsed_len : Bytes → ℕ
unfolding is_unparsed
unparsed_len [] = 0
unparsed_len (c ∷ what) = (if is_unparsed c then 3 else 1) + unparsed_len what

-- The second loop of unparse_percents.
pub unparse_percents : Bytes → Bytes
unfolding is_unparsed escape
unparse_percents [] = []
unparse_percents (c ∷ what) =
    if is_unparsed c then escape c (unparse_percents what) else c ∷ unparse_percents what

-- The `case '%'` of parse_percents: the byte that the two characters behind it stand for.
pub percent : ℕ → ℕ → Option ℕ
unfolding convert_from_hex
percent a b = elim (convert_from_hex a) [
  | none ↦ none
  | some num ↦ elim (convert_from_hex b) [ none ↦ none | some num1 ↦ some (num * 16 + num1) ]
]

-- The loop of parse_percents: what it writes into the buffer.
pub parse_loop : Bytes → Bytes
unfolding percent
parse_loop [] = []
parse_loop (c ∷ []) = c ∷ []
parse_loop (c ∷ a ∷ []) = c ∷ a ∷ []
parse_loop (c ∷ a ∷ b ∷ old) =
    let copied = c ∷ parse_loop (a ∷ b ∷ old) in
    let rest = parse_loop old in
    if c == b'%' then elim (percent a b) [ none ↦ copied | some num ↦ num ∷ rest ] else copied

-- A buffer read as a string: up to the first zero.
pub string_of : Bytes → Bytes
string_of [] = []
string_of (c ∷ s) = if c == 0 then [] else c ∷ string_of s

pub parse_percents : Bytes → Bytes
unfolding parse_loop string_of
parse_percents what = string_of (parse_loop what)
