-- ===== src/Addresses/Saved.antt =====
-- main/addr.cc: what URL::URL (const std::string &) makes of an address without user, port, parameters
-- and escapes, and how URL::operator std::string prints that.
use d4x.Prelude.{
  ℕ, zero, suc, ◌+◌, ◌-◌, ◌<◌, Bool, true, false, ◌||◌, Option, none, some, [], ◌∷◌, ◌++◌, ◌==◌,
  ltb, if◌then◌else◌, Bytes, codes, take, drop, length, ◌≡◌, refl, arith, ap, ◌∙◌,
}
use d4x.Hex.{unhexed_string}
use d4x.TextFile.{equal_uncase, lower}
use d4x.Addresses.{proto_name, proto_last, proto_http, proto_https, get_proto_by_name, find_proto}
use d4x.Addresses.Reading.{
  find, find_from, between, between_or_rest, split_scheme, read_parts, read_proto, fragment,
  read_query, read_host, read_rest, read_url,
}
use d4x.Addresses.Find.{
  find-append, absent-append, rfind-absent, take-length, drop-length, find_scheme-append,
}

-- The names of the protocols, by which they are found again.
names :
    (proto : ℕ)
    → proto < proto_last
    → (find b':' (proto_name proto) ≡ none)
      × (find b'#' (proto_name proto) ≡ none)
      × (get_proto_by_name (proto_name proto) ≡ proto)
      × ((length (proto_name proto) == 0) ≡ false)
unfolding find proto_name get_proto_by_name find_proto equal_uncase lower
names zero p = (refl, refl, refl, refl)
names (suc zero) p = (refl, refl, refl, refl)
names (suc (suc zero)) p = (refl, refl, refl, refl)
names (suc (suc (suc zero))) p = (refl, refl, refl, refl)
names (suc (suc (suc (suc zero)))) p = (refl, refl, refl, refl)
names (suc (suc (suc (suc (suc zero))))) p = (refl, refl, refl, refl)
names (suc (suc (suc (suc (suc (suc proto)))))) p = absurd (omega (arith, p))

suc_add : (m n : ℕ) → suc m + n ≡ suc (m + n)
suc_add m n = omega arith

drop-add : (m n : ℕ) (s : Bytes) → drop (m + n) s ≡ drop n (drop m s)
drop-add zero n s = ap (λ k. drop k s) (omega arith)
drop-add (suc m) zero [] = ap (λ k. drop k []) (suc_add m zero)
drop-add (suc m) (suc n) [] = ap (λ k. drop k []) (suc_add m (suc n))
drop-add (suc m) n (a ∷ s) = ap (λ k. drop k (a ∷ s)) (suc_add m n) ∙ drop-add m n s

-- The scheme, the host and the path, where they stand.
module _ (name host t : Bytes) where
  abbrev whole : Bytes
  whole = name ++ (codes "://" ++ (host ++ b'/' ∷ t))

  drop-scheme : drop (length name + 3) whole ≡ host ++ b'/' ∷ t
  drop-scheme =
      drop-add (length name) 3 whole
      ∙ ap (drop 3) (drop-length name (codes "://" ++ (host ++ b'/' ∷ t)))

  drop-host : drop (length name + 3 + length host) whole ≡ b'/' ∷ t
  drop-host =
      drop-add (length name + 3) (length host) whole
      ∙ ap (drop (length host)) drop-scheme
      ∙ drop-length host (b'/' ∷ t)

  between-host : between whole (length name + 3) (length name + 3 + length host) ≡ host
  unfolding between
  between-host =
      let not_below : ltb (length name + 3 + length host) (length name + 3) ≡ false =
        ground arith in
      let count : length name + 3 + length host - (length name + 3) ≡ length host = omega arith in
      rw (not_below, count) (ap (take (length host)) drop-scheme ∙ take-length host (b'/' ∷ t))

  from-scheme :
      (c : ℕ) (i : ℕ)
      → find c (host ++ b'/' ∷ t) ≡ some i
      → find_from c (length name + 3) whole ≡ some (length name + 3 + i)
  unfolding find_from
  from-scheme c i e =
      ap (λ o. elim o [ none ↦ none | some i ↦ some (length name + 3 + i) ])
        (ap (find c) drop-scheme ∙ e)

  from-host :
      (c : ℕ) → find c (b'/' ∷ t) ≡ none → find_from c (length name + 3 + length host) whole ≡ none
  unfolding find_from
  from-host c e =
      ap (λ o. elim o [ none ↦ none | some i ↦ some (length name + 3 + length host + i) ])
        (ap (find c) drop-host ∙ e)

  scheme :
      (length name == 0) ≡ false → split_scheme whole (some (length name)) ≡ (name, length name + 3)
  unfolding split_scheme
  scheme e = rw (e, take-length name (codes "://" ++ (host ++ b'/' ∷ t))) refl

if_none : (b : Bool) (o : Option ℕ) → o ≡ none → (if b then o else none) ≡ none
if_none true o e = e
if_none false o e = refl

scheme_hash : find b'#' (codes "://") ≡ none
unfolding find
scheme_hash = refl

module _ (atoi : Bytes → ℕ) (fuel proto : ℕ) (host t : Bytes) (known : proto < proto_last)
    (one_host : find b'/' host ≡ none) (no_query : find b'?' (b'/' ∷ t) ≡ none)
    (no_fragment : find b'#' (host ++ b'/' ∷ t) ≡ none) where
  read_proto-name :
      (s name : Bytes)
      → (length name == 0) ≡ false
      → read_proto atoi s name ≡ get_proto_by_name name
  unfolding read_proto
  read_proto-name s [] e = absurd (ground arith)
  read_proto-name s (c ∷ name) e = refl

  no_hash : fragment atoi (whole (proto_name proto) host t) proto ≡ none
  unfolding fragment
  no_hash =
      let (colon, hash, back, long) = names proto known in
      if_none ((proto == proto_http) || (proto == proto_https)) _ (
        rfind-absent b'#' (whole (proto_name proto) host t) (
          absent-append b'#' (proto_name proto) (codes "://" ++ (host ++ b'/' ∷ t)) hash
            (absent-append b'#' (codes "://") (host ++ b'/' ∷ t) scheme_hash no_fragment)))

  read_query_lem :
      read_query atoi fuel
        (whole (proto_name proto) host t)
        host
        (length (proto_name proto) + 3 + length host)
        proto
        none
      ≡ read_parts atoi fuel host (unhexed_string (b'/' ∷ t)) [] proto
  unfolding read_query between_or_rest
  read_query_lem =
      ap
        (λ o.
          read_parts atoi fuel host
            (unhexed_string (
              between_or_rest (whole (proto_name proto) host t)
                (length (proto_name proto) + 3 + length host) o))
            [] proto)
        no_hash
      ∙ ap (λ u. read_parts atoi fuel host (unhexed_string u) [] proto)
          (drop-host (proto_name proto) host t)

  read_host_lem :
      read_host atoi fuel
        (whole (proto_name proto) host t)
        (length (proto_name proto) + 3)
        proto
        (some (length (proto_name proto) + 3 + length host))
      ≡ read_parts atoi fuel host (unhexed_string (b'/' ∷ t)) [] proto
  unfolding read_host
  read_host_lem =
      ap
        (λ h.
          read_query atoi fuel (whole (proto_name proto) host t) h
            (length (proto_name proto) + 3 + length host) proto
            (find_from b'?' (length (proto_name proto) + 3 + length host)
              (whole (proto_name proto) host t)))
        (between-host (proto_name proto) host t)
      ∙ ap
          (read_query atoi fuel (whole (proto_name proto) host t) host
            (length (proto_name proto) + 3 + length host) proto)
          (from-host (proto_name proto) host t b'?' no_query)
      ∙ read_query_lem

  read_rest_lem :
      read_rest atoi fuel
        (whole (proto_name proto) host t)
        (proto_name proto, length (proto_name proto) + 3)
      ≡ read_parts atoi fuel host (unhexed_string (b'/' ∷ t)) [] proto
  unfolding read_rest
  read_rest_lem =
      let (colon, hash, back, long) = names proto known in
      ap
        (λ q.
          read_host atoi fuel (whole (proto_name proto) host t) (length (proto_name proto) + 3) q
            (find_from b'/' (length (proto_name proto) + 3) (whole (proto_name proto) host t)))
        (read_proto-name (whole (proto_name proto) host t) (proto_name proto) long ∙ back)
      ∙ ap
          (read_host atoi fuel (whole (proto_name proto) host t) (length (proto_name proto) + 3)
            proto)
          (from-scheme (proto_name proto) host t b'/' (length host)
            (find-append b'/' host t one_host))
      ∙ read_host_lem

  pub read_url_lem :
      read_url atoi fuel (whole (proto_name proto) host t)
      ≡ read_parts atoi fuel host (unhexed_string (b'/' ∷ t)) [] proto
  unfolding read_url
  read_url_lem =
      let (colon, hash, back, long) = names proto known in
      ap (read_rest atoi fuel (whole (proto_name proto) host t)) (
        ap (split_scheme (whole (proto_name proto) host t))
          (find_scheme-append (proto_name proto) (host ++ b'/' ∷ t) colon)
        ∙ scheme (proto_name proto) host t long)
      ∙ read_rest_lem
