-- ===== src/Addresses/Printed.antt =====
-- main/addr.cc: an address that is read and printed again has one slash more.
use d4x.Prelude.{
  ℕ, suc, ◌<◌, true, none, some, [], ◌∷◌, ◌++◌, Bytes, codes, take, drop, ◌≡◌, refl, arith, ap, sym,
  ◌∙◌, append-nil, append_assoc,
}
use d4x.Hex.{hexed_string, unhexed_string}
use d4x.Hex.RoundTrip.{unhexed_copy, unhexed_none}
use d4x.Addresses.{
  Url, proto_name, proto_last, join, url_text, user_text, port_text, params_text, print_url,
}
use d4x.Addresses.Reading.{
  find, in_front, behind, or_keep, user_part, host_part, read_port, or_default, read_parts,
  make_url, read_url,
}
use d4x.Addresses.Find.{find-none}
use d4x.Addresses.Slashes.{is_dir, read_path_lem, join_lem, before-some, tame-root}
use d4x.Addresses.Saved.{read_url_lem}
use d4x.Paths.Tame.{tame}

unhexed-plain : (s : Bytes) → find b'%' s ≡ none → unhexed_string s ≡ s
unhexed-plain [] e = unhexed_none
unhexed-plain (c ∷ s) e =
    let (b, f) = find-none b'%' c s e in unhexed_copy c s b ∙ ap (λ t. c ∷ t) (unhexed-plain s f)

first_slash : (dir file : Bytes) → is_dir dir ≡ true → (t : Bytes) × (dir ++ b'/' ∷ file ≡ b'/' ∷ t)
first_slash [] file d = (file, refl)
first_slash (c ∷ dir) file d =
    (dir ++ b'/' ∷ file, ap (λ a. a ∷ (dir ++ b'/' ∷ file)) (ground arith))

in_front-none : (c : ℕ) (s : Bytes) → find c s ≡ none → in_front c s ≡ s
unfolding in_front
in_front-none c s e = ap (λ o. elim o [ none ↦ s | some p ↦ take p s ]) e

behind-none : (c : ℕ) (s : Bytes) → find c s ≡ none → behind c s ≡ none
unfolding behind
behind-none c s e = ap (λ o. elim o [ none ↦ none | some p ↦ some (drop (suc p) s) ]) e

no_users : (host : Bytes) → find b'@' host ≡ none → (user_part host ≡ []) × (host_part host ≡ host)
unfolding user_part host_part or_keep
no_users host e = (
  ap (λ o. elim o [ none ↦ [] | some p ↦ take p host ]) e,
  ap (λ o. or_keep o host) (behind-none b'@' host e),
)

default_text :
    (atoi : Bytes → ℕ) (proto : ℕ)
    → port_text (or_default atoi (read_port atoi none) proto) proto ≡ []
unfolding port_text or_default read_port
default_text atoi proto = ground arith

module _ (atoi : Bytes → ℕ) (fuel proto : ℕ) (host dir file : Bytes) (c : ℕ)
    (known : proto < proto_last) (one_host : find b'/' host ≡ none)
    (no_user : find b'@' host ≡ none) (no_port : find b':' host ≡ none) (is : is_dir dir ≡ true)
    (dir_tame : tame true dir ≡ true) (file_tame : tame true (c ∷ file) ≡ true)
    (flat : find b'/' (c ∷ file) ≡ none) (no_query : find b'?' (dir ++ b'/' ∷ c ∷ file) ≡ none)
    (no_escape : find b'%' (dir ++ b'/' ∷ c ∷ file) ≡ none)
    (no_fragment : find b'#' (host ++ (dir ++ b'/' ∷ c ∷ file)) ≡ none) where
  abbrev text : Bytes
  text = dir ++ b'/' ∷ c ∷ file

  abbrev made : Url
  made = make_url atoi host [] proto (b'/' ∷ dir, c ∷ file)

  made_lem : read_parts atoi fuel host text [] proto ≡ some made
  unfolding read_parts
  made_lem =
      ap (λ o. elim o [ none ↦ none | some parts ↦ some (make_url atoi host [] proto parts) ])
        (read_path_lem fuel dir (c ∷ file) is dir_tame file_tame flat)

  read_lem : read_url atoi fuel (proto_name proto ++ (codes "://" ++ (host ++ text))) ≡ some made
  read_lem =
      let (t, e) = first_slash dir (c ∷ file) is in
      ap (λ x. read_url atoi fuel (proto_name proto ++ (codes "://" ++ (host ++ x)))) e
      ∙ read_url_lem atoi fuel proto host t known one_host (ap (find b'?') (sym e) ∙ no_query)
          (ap (λ x. find b'#' (host ++ x)) (sym e) ∙ no_fragment)
      ∙ ap (λ x. read_parts atoi fuel host x [] proto)
          (unhexed-plain (b'/' ∷ t) (ap (find b'%') (sym e) ∙ no_escape) ∙ sym e)
      ∙ made_lem

  fields :
      (made.host ≡ host) × (user_text made.user made.pass ≡ []) × (port_text made.port proto ≡ [])
  unfolding make_url user_text find in_front behind or_keep
  fields =
      let (user, h) = no_users host no_user in
      (
        ap (in_front b':') h ∙ in_front-none b':' host no_port,
        ap (λ x. user_text (in_front b':' x) (or_keep (behind b':' x) [])) user,
        ap (λ x. port_text (or_default atoi (read_port atoi x) proto) proto)
              (ap (behind b':') h ∙ behind-none b':' host no_port)
            ∙ default_text atoi proto,
      )

  abbrev line : Bytes → Bytes → Bytes → Bytes
  line user h port =
      proto_name proto ++ codes "://" ++ user ++ h ++ port ++ hexed_string (b'/' ∷ text) ++ []

  line_lem :
      line [] host [] ≡ proto_name proto ++ (codes "://" ++ (host ++ hexed_string (b'/' ∷ text)))
  line_lem =
      let scheme = proto_name proto ++ codes "://" in
      let path = hexed_string (b'/' ∷ text) in
      append-nil _
      ∙ ap (λ y. y ++ path) (append-nil _ ∙ ap (λ y. y ++ host) (append-nil scheme))
      ∙ append_assoc scheme host path
      ∙ append_assoc (proto_name proto) (codes "://") (host ++ path)

  print_lem :
      print_url fuel made
      ≡ some (proto_name proto ++ (codes "://" ++ (host ++ hexed_string (b'/' ∷ text))))
  unfolding print_url url_text params_text make_url
  print_lem =
      let (h, user, port) = fields in
      before-some (join fuel (b'/' ∷ dir) (c ∷ file)) (b'/' ∷ text)
        (url_text made (user_text made.user made.pass))
        (join_lem fuel (b'/' ∷ dir) file c (tame-root dir is dir_tame) file_tame flat)
      ∙ ap (λ x. some (line x made.host (port_text made.port proto))) user
      ∙ ap (λ x. some (line [] x (port_text made.port proto))) h
      ∙ ap (λ x. some (line [] host x)) port
      ∙ ap some line_lem

  -- For each protocol: an address with a host, a path and a file, but without a user, a port, parameters,
  -- escapes or a fragment, and without a dot at the beginning of a part of its path or of its file, is
  -- read to an address that is printed with one slash more between the host and the path, and with
  -- the path in the escapes of hexed_string.
  pub print_url-read_url :
      (u : Url) × (read_url atoi fuel
          (proto_name proto ++ (codes "://" ++ (host ++ (dir ++ b'/' ∷ c ∷ file))))
        ≡ some u)
      × (print_url fuel u
          ≡ some (
              proto_name proto
              ++ (codes "://" ++ (host ++ hexed_string (b'/' ∷ dir ++ b'/' ∷ c ∷ file)))))
  print_url-read_url = (made, read_lem, print_lem)
