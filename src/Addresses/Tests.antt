-- ===== src/Addresses/Tests.antt =====
-- The theorems on addresses at http://host/dir/page.html and its like.
use d4x.Prelude.{false, some, [], ◌++◌, codes, ◌≡◌, refl, arith}
use d4x.Decimal.{scan_digits}
use d4x.Hex.{hexed_string}
use d4x.Addresses.{Url, proto_name, proto_http, print_url}
use d4x.Addresses.Reading.{find, read_url}
use d4x.Addresses.Printed.{print_url-read_url}

print_url-read_url_example :
    (u : Url) × (read_url (scan_digits 0) 9 (codes "http://d4x.net/doc/faq.html") ≡ some u)
    × (print_url 9 u ≡ some (codes "http://d4x.net" ++ hexed_string (codes "//doc/faq.html")))
unfolding find proto_name
print_url-read_url_example =
    print_url-read_url (scan_digits 0) 9 proto_http (codes "d4x.net") (codes "/doc")
      (codes "aq.html") b'f' (omega arith) refl refl refl refl refl refl refl refl refl refl

abbrev page : Url
page = record {
  host = codes "d4x.net";
  path = codes "/";
  file = codes "faq.html";
  params = [];
  user = [];
  pass = [];
  tag = [];
  proto = proto_http;
  port = 80;
  mask = false;
}
