-- ===== src/Mask/Tests.antt =====
-- Runs of the mask functions, and the theorems at concrete masks.
use d4x.Prelude.{ℕ, ◌≡◌, ◌↔◌, refl, true, false, ◌==◌, if◌then◌else◌, codes}
use d4x.Mask.{question, check_mask, check_mask2}
use d4x.Mask.Matches.{Matches, check_mask2_iff}

extension : check_mask2 (codes "*.mp?") (codes "song.mp3") ≡ true
unfolding check_mask2
extension = refl

-- A star does not stand for nothing.
star_takes_a_byte : check_mask2 (codes "*.mp3") (codes ".mp3") ≡ false
unfolding check_mask2
star_takes_a_byte = refl

two_stars : check_mask (codes "a*b*") (codes "a.b.b") ≡ true
unfolding check_mask
two_stars = refl

check_mask2_iff_example :
    (check_mask2 (codes "*.mp?") (codes "song.mp3") ≡ true)
    ↔ Matches (λ k. k == question) (λ c k. c == k) (codes "*.mp?") (codes "song.mp3")
check_mask2_iff_example = check_mask2_iff (codes "*.mp?") (codes "song.mp3")

-- `tolower` for two letters.
abbrev lower : ℕ → ℕ
lower c = if c == b'A' then b'a' else if c == b'B' then b'b' else c
