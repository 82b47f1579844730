-- ===== src/Hex/Tests.antt =====
-- Runs of the escapes, and the theorems at concrete strings.
use d4x.Prelude.{◌≡◌, refl, arith, codes}
use d4x.Hex.{hexed_string, unhexed_string, parse_percents}
use d4x.Hex.RoundTrip.{unhexed_string-hexed_string}

escape_blank : hexed_string (codes "a b%") ≡ codes "a%20b%25"
unfolding hexed_string
escape_blank = refl

no_digits : unhexed_string (codes "50%x%4") ≡ codes "50%x%4"
unfolding unhexed_string
no_digits = refl

-- An escaped zero is dropped, and the '%' behind it is not read as an escape.
escaped_zero : unhexed_string (codes "a%00%41") ≡ codes "a%41"
unfolding unhexed_string
escaped_zero = refl

parse_some : parse_percents (codes "%41%zz%2") ≡ codes "A%zz%2"
unfolding parse_percents
parse_some = refl

unhexed_string-hexed_string_example :
    unhexed_string (hexed_string (codes "a b%41")) ≡ codes "a b%41"
unhexed_string-hexed_string_example = unhexed_string-hexed_string (codes "a b%41") (omega arith)
