-- ===== src/Strings/Tests.antt =====
-- The theorems on strings at concrete ones.
use d4x.Prelude.{true, false, ◌≡◌, refl, codes}
use d4x.Strings.{equal_first}
use d4x.Strings.Case.{string_ended}

-- equal_first does not ask which of the strings is the shorter one.
equal_first_both :
    (equal_first (codes "ft") (codes "ftp") ≡ true)
    × (equal_first (codes "ftp") (codes "ft") ≡ true)
unfolding equal_first
equal_first_both = (refl, refl)

ends :
    (string_ended (codes ".gz") (codes "a.tar.gz") ≡ true)
    × (string_ended (codes ".gz") (codes "a.tar") ≡ false)
unfolding string_ended
ends = (refl, refl)
