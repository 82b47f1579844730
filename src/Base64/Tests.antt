-- ===== src/Base64/Tests.antt =====
-- Runs of string_to_base64, and the theorems at a concrete string.
use d4x.Prelude.{◌≡◌, refl, arith, codes}
use d4x.Base64.{string_to_base64}
use d4x.Base64.RoundTrip.{decode, decode-string_to_base64}

user_and_password :
    string_to_base64 (codes "Aladdin:open sesame") ≡ codes "QWxhZGRpbjpvcGVuIHNlc2FtZQ=="
unfolding string_to_base64
user_and_password = refl

decode-string_to_base64_example : decode (string_to_base64 (codes "user:pw")) ≡ codes "user:pw"
decode-string_to_base64_example = decode-string_to_base64 (codes "user:pw") (omega arith)
