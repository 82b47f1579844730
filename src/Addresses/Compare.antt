-- ===== src/Addresses/Compare.antt =====
-- main/addr.cc: the names of the protocols, and when two addresses are equal.
use d4x.Prelude.{ℕ, zero, suc, ◌<◌, true, [], ◌∷◌, Bytes, same_text_refl, ◌≡◌, refl, arith}
use d4x.TextFile.{equal_uncase, lower}
use d4x.Addresses.{
  Url, proto_last, proto_name, get_name_by_proto, get_proto_by_name, find_proto, equal_url,
}

-- The name of a protocol is the name of that protocol.
pub get_proto_by_name-get_name_by_proto :
    (proto : ℕ) → proto < proto_last → get_proto_by_name (get_name_by_proto proto) ≡ proto
unfolding get_proto_by_name get_name_by_proto find_proto proto_name equal_uncase lower
get_proto_by_name-get_name_by_proto zero p = refl
get_proto_by_name-get_name_by_proto (suc zero) p = refl
get_proto_by_name-get_name_by_proto (suc (suc zero)) p = refl
get_proto_by_name-get_name_by_proto (suc (suc (suc zero))) p = refl
get_proto_by_name-get_name_by_proto (suc (suc (suc (suc zero)))) p = refl
get_proto_by_name-get_name_by_proto (suc (suc (suc (suc (suc zero))))) p = refl
get_proto_by_name-get_name_by_proto (suc (suc (suc (suc (suc (suc proto)))))) p =
    absurd (omega (arith, p))

equal_uncase_refl : (s : Bytes) → equal_uncase s s ≡ true
unfolding equal_uncase
equal_uncase_refl [] = refl
equal_uncase_refl (c ∷ s) = ground (arith, equal_uncase_refl s)

-- An address is equal to any that differs from it in the port, the user and the password only.
pub equal_url-other_port :
    (u : Url) (port : ℕ) (user pass : Bytes)
    → equal_url u (record u { port = port; user = user; pass = pass }) ≡ true
unfolding equal_url
equal_url-other_port u port user pass = ground (
  arith,
  equal_uncase_refl u.host,
  same_text_refl u.path,
  same_text_refl u.file,
  same_text_refl u.params,
  same_text_refl u.user,
)
