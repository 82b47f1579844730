-- ===== src/Base64/Sextets.antt =====
-- The bit operations of three_to_four as arithmetic, and the digits read back, by going through
-- every value.
use Prim.Native.Nat.{bit_and, bit_or}
use d4x.Prelude.{
  ℕ, ◌+◌, ◌-◌, ◌*◌, ◌/◌, ◌%◌, ◌<◌, ◌≡◌, refl, true, false, ◌&&◌, not, leb, ◌==◌, ==_iff,
  if◌then◌else◌, arith,
}
use d4x.Prelude.Table.{every, every_sound}
use d4x.Base64.{table64, digit, sextet0, sextet1, sextet2, sextet3}

sextet0_table : every 256 (λ a. sextet0 a == a / 4) ≡ true
unfolding every sextet0
sextet0_table = refl

sextet1_table :
    every 256 (λ a. every 16 (λ d. bit_and (bit_or (a * 16) d) 63 == (a % 4) * 16 + d)) ≡ true
unfolding every
sextet1_table = refl

sextet2_table :
    every 256 (λ b. every 4 (λ d. bit_and (bit_or (b * 4) d) 63 == (b % 16) * 4 + d)) ≡ true
unfolding every
sextet2_table = refl

sextet3_table : every 256 (λ c. sextet3 c == c % 64) ≡ true
unfolding every sextet3
sextet3_table = refl

pub sextet0_lem : (a : ℕ) → a < 256 → sextet0 a ≡ a / 4
sextet0_lem a h = (==_iff _ _).0 (every_sound 256 _ a sextet0_table h)

pub sextet1_lem : (a b : ℕ) → a < 256 → b < 256 → sextet1 a b ≡ (a % 4) * 16 + b / 16
unfolding sextet1
sextet1_lem a b h k =
    (==_iff _ _).0 (every_sound 16 _ (b / 16) (every_sound 256 _ a sextet1_table h) (omega arith))

pub sextet2_lem : (b c : ℕ) → b < 256 → c < 256 → sextet2 b c ≡ (b % 16) * 4 + c / 64
unfolding sextet2
sextet2_lem b c h k =
    (==_iff _ _).0 (every_sound 4 _ (c / 64) (every_sound 256 _ b sextet2_table h) (omega arith))

pub sextet3_lem : (c : ℕ) → c < 256 → sextet3 c ≡ c % 64
sextet3_lem c h = (==_iff _ _).0 (every_sound 256 _ c sextet3_table h)

-- The value of a digit, as RFC 4648 has it.
pub value : ℕ → ℕ
value c =
    if leb b'a' c && leb c b'z'
    then c - 71
    else if leb b'A' c && leb c b'Z'
    then c - 65
    else if leb b'0' c && leb c b'9'
    then c + 4
    else if c == b'+'
    then 62
    else 63

digit_table : every 64 (λ i. (value (digit table64 i) == i) && not (digit table64 i == b'=')) ≡ true
unfolding every value digit
digit_table = refl

pub value-digit : (i : ℕ) → i < 64 → value (digit table64 i) ≡ i
value-digit i h = ground (arith, every_sound 64 _ i digit_table h)

pub digit_not_pad : (i : ℕ) → i < 64 → (digit table64 i == b'=') ≡ false
digit_not_pad i h = ground (arith, every_sound 64 _ i digit_table h)
