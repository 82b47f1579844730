-- ===== src/Hex/Digits.antt =====
-- The two digits of a byte read back as the byte, by going through every byte.
use d4x.Prelude.{ℕ, ◌/◌, ◌%◌, ◌<◌, ◌≡◌, refl, ap, true, some, ◌==◌, ==_iff, arith}
use d4x.Prelude.Table.{every, every_sound}
use d4x.Hex.{convert_from_hex, convert_pair, dec_to_hex, percent}

pair_table : every 256 (λ r. convert_pair (dec_to_hex (r / 16)) (dec_to_hex (r % 16)) == r) ≡ true
unfolding every convert_pair dec_to_hex
pair_table = refl

pub convert_pair-dec_to_hex :
    (r : ℕ) → r < 256 → convert_pair (dec_to_hex (r / 16)) (dec_to_hex (r % 16)) ≡ r
convert_pair-dec_to_hex r h = (==_iff _ _).0 (every_sound 256 _ r pair_table h)

convert_from_hex-dec_to_hex : (d : ℕ) → d < 16 → convert_from_hex (dec_to_hex d) ≡ some d
unfolding convert_from_hex dec_to_hex
convert_from_hex-dec_to_hex d h = ground arith

pub percent-dec_to_hex :
    (r : ℕ) → r < 256 → percent (dec_to_hex (r / 16)) (dec_to_hex (r % 16)) ≡ some r
unfolding percent
percent-dec_to_hex r h =
    rw
      (
        convert_from_hex-dec_to_hex (r / 16) (omega arith),
        convert_from_hex-dec_to_hex (r % 16) (omega arith),
        percent,
      )
      (ap some (omega arith))
