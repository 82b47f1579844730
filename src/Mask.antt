-- ===== src/Mask.antt =====
-- check_mask, check_mask2 and check_mask2_uncase of main/locstr.cc: wildcards in a mask.
-- A string is the list of its bytes without the terminating zero. `tolower` of the C library is a
-- parameter.
pub mod Matches
mod Tests
use d4x.Prelude.{ℕ, Bool, true, false, ◌||◌, List, [], ◌∷◌, ◌==◌, if◌then◌else◌, Bytes}

abbrev pub star : ℕ
star = b'*'

abbrev pub question : ℕ
question = b'?'

-- The loop behind a `*`: the rest of the mask is tried at each suffix, and the outer loop goes on
-- with it at the end of the string.
pub any_suffix : (Bytes → Bool) → Bytes → Bool
any_suffix f [] = f []
any_suffix f (c ∷ s) = f (c ∷ s) || any_suffix f s

-- The branch of `*`, which takes at least one byte.
pub after_star : (Bytes → Bool) → Bytes → Bool
unfolding any_suffix
after_star f [] = false
after_star f (c ∷ s) = any_suffix f s

-- The branch of `?`.
pub after_question : (Bytes → Bool) → Bytes → Bool
after_question f [] = false
after_question f (c ∷ s) = f s

-- The branch of any other byte of the mask.
pub after_byte : (ℕ → Bool) → (Bytes → Bool) → Bytes → Bool
after_byte same f [] = false
after_byte same f (c ∷ s) = if same c then f s else false

pub at_end : Bytes → Bool
at_end [] = true
at_end (c ∷ s) = false

-- check_mask, with the mask first: the recursion is on it.
pub check_mask : Bytes → Bytes → Bool
unfolding after_star after_byte at_end
check_mask [] s = at_end s
check_mask (k ∷ m) s =
    if k == star then after_star (check_mask m) s else after_byte (λ c. c == k) (check_mask m) s

-- check_mask2, with the mask first.
unfoldable pub check_mask2 : Bytes → Bytes → Bool
unfolding after_star after_question after_byte at_end
check_mask2 [] s = at_end s
check_mask2 (k ∷ m) s =
    if k == star
    then after_star (check_mask2 m) s
    else if k == question
    then after_question (check_mask2 m) s
    else after_byte (λ c. c == k) (check_mask2 m) s

-- check_mask2_uncase, with the mask first.
unfoldable pub check_mask2_uncase : (ℕ → ℕ) → Bytes → Bytes → Bool
unfolding after_star after_question after_byte at_end
check_mask2_uncase tolower [] s = at_end s
check_mask2_uncase tolower (k ∷ m) s =
    if k == star
    then after_star (check_mask2_uncase tolower m) s
    else if k == question
    then after_question (check_mask2_uncase tolower m) s
    else after_byte (λ c. tolower c == tolower k) (check_mask2_uncase tolower m) s
