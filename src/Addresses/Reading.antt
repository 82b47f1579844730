-- ===== src/Addresses/Reading.antt =====
-- main/addr.cc: URL::URL (const std::string &), which reads an address.
use d4x.Prelude.{
  ℕ, suc, ◌+◌, ◌-◌, true, false, ◌||◌, Option, none, some, [], ◌∷◌, ◌==◌, ltb, if◌then◌else◌, Bytes,
  codes, take, drop,
}
use d4x.Strings.{begin_string}
use d4x.Hex.{unhexed_string}
use d4x.Paths.{normalize, append}
use d4x.Addresses.{
  Url, ◌before◌, proto_ftp, proto_http, proto_https, get_port_by_proto, get_proto_by_name,
  get_proto_by_string,
}

-- `_s.find (c)`
unfoldable pub find : ℕ → Bytes → Option ℕ
find c [] = none
find c (a ∷ rest) =
    let more = find c rest in
    if a == c then some 0 else elim more [ none ↦ none | some p ↦ some (suc p) ]

-- `_s.find (c,p)`
unfoldable pub find_from : ℕ → ℕ → Bytes → Option ℕ
unfolding find
find_from c p s = elim (find c (drop p s)) [ none ↦ none | some i ↦ some (p + i) ]

-- `_s.rfind (c)`
unfoldable pub rfind : ℕ → Bytes → Option ℕ
rfind c [] = none
rfind c (a ∷ rest) = elim (rfind c rest) [
  | some p ↦ some (suc p)
  | none ↦ if a == c then some 0 else none
]

-- `_s.find ("://")`
unfoldable pub find_scheme : Bytes → Option ℕ
find_scheme [] = none
find_scheme (a ∷ rest) =
    let more = find_scheme rest in
    if begin_string (a ∷ rest) (codes "://")
    then some 0
    else elim more [ none ↦ none | some p ↦ some (suc p) ]

-- `_s.substr (a,b-a)`, where a count below zero wraps around to all that is left.
unfoldable pub between : Bytes → ℕ → ℕ → Bytes
between s a b = if ltb b a then drop a s else take (b - a) (drop a s)

unfoldable pub between_or_rest : Bytes → ℕ → Option ℕ → Bytes
unfolding between
between_or_rest s a none = drop a s
between_or_rest s a (some b) = between s a b

-- The protocol's name, which may be empty, and the position behind it.
unfoldable pub split_scheme : Bytes → Option ℕ → Bytes × ℕ
split_scheme s none = ([], 0)
split_scheme s (some p) = if p == 0 then ([], 0) else (take p s, p + 3)

-- In front of the first `c` and behind it; without one `whole` takes the string.
unfoldable pub in_front : ℕ → Bytes → Bytes
unfolding find
in_front c s = elim (find c s) [ none ↦ s | some p ↦ take p s ]

unfoldable pub behind : ℕ → Bytes → Option Bytes
unfolding find
behind c s = elim (find c s) [ none ↦ none | some p ↦ some (drop (suc p) s) ]

-- `path=d4x::Path ("/")/path`, with the file.
unfoldable pub rooted : ℕ → Bytes → Bytes → Option (Bytes × Bytes)
unfolding append ◌before◌
rooted fuel file dir = append fuel (codes "/") dir before λ joined. some (joined, file)

-- The cut at the last slash, whose first part becomes a Path again.
unfoldable pub split_path : ℕ → Bytes → Option ℕ → Option (Bytes × Bytes)
unfolding normalize rooted ◌before◌
split_path fuel path none = rooted fuel [] path
split_path fuel path (some p) = normalize fuel (take p path) before rooted fuel (drop (suc p) path)

-- The path and the file of URL::URL (const std::string &), from the string that is put into `path`.
unfoldable pub read_path : ℕ → Bytes → Option (Bytes × Bytes)
unfolding rfind normalize split_path ◌before◌
read_path fuel text = normalize fuel text before λ path. split_path fuel path (rfind b'/' path)

-- `if (p!=npos) v=s.substr (p+1)`: what is behind, or the value it had.
unfoldable pub or_keep : Option Bytes → Bytes → Bytes
or_keep none v = v
or_keep (some s) v = s

-- The user's and the password's part of USER:PASS@HOST:PORT.
unfoldable pub user_part : Bytes → Bytes
unfolding find
user_part host = elim (find b'@' host) [ none ↦ [] | some p ↦ take p host ]

-- The part of it with the host and the port.
unfoldable pub host_part : Bytes → Bytes
unfolding behind or_keep
host_part host = or_keep (behind b'@' host) host

module _ (atoi : Bytes → ℕ) where
  -- `atoi` of what is behind the colon, and 0 without one.
  unfoldable pub read_port : Option Bytes → ℕ
  read_port none = 0
  read_port (some s) = atoi s

  -- `if (!port) port=get_port_by_proto (proto)`
  unfoldable pub or_default : ℕ → ℕ → ℕ
  unfolding get_port_by_proto
  or_default port proto = if port == 0 then get_port_by_proto proto else port

  -- The address from USER:PASS@HOST:PORT, the parameters, the protocol, and the path and the file.
  unfoldable pub make_url : Bytes → Bytes → ℕ → Bytes × Bytes → Url
  unfolding user_part host_part in_front behind or_keep read_port or_default
  make_url host params proto (path, file) = record {
    host = in_front b':' (host_part host);
    path = path;
    file = file;
    params = params;
    user = in_front b':' (user_part host);
    pass = or_keep (behind b':' (user_part host)) [];
    tag = [];
    proto = proto;
    port = or_default (read_port (behind b':' (host_part host))) proto;
    mask =
        if proto == proto_ftp
        then (elim (find b'*' file) [ none ↦ false | some p ↦ true ])
        else false;
  }

  -- The end of URL::URL (const std::string &), behind the parameters; `text` is put into `path`.
  unfoldable pub read_parts : ℕ → Bytes → Bytes → Bytes → ℕ → Option Url
  unfolding read_path make_url
  read_parts fuel host text params proto = elim (read_path fuel text) [
    | none ↦ none
    | some parts ↦ some (make_url host params proto parts)
  ]

  -- `proto` of URL::URL (const std::string &)
  unfoldable pub read_proto : Bytes → Bytes → ℕ
  unfolding get_proto_by_string get_proto_by_name
  read_proto s [] = get_proto_by_string s
  read_proto s (c ∷ name) = get_proto_by_name (c ∷ name)

  -- `p2`
  unfoldable pub fragment : Bytes → ℕ → Option ℕ
  unfolding rfind
  fragment s proto = if (proto == proto_http) || (proto == proto_https) then rfind b'#' s else none

  -- The string that is put into `path`, and the parameters, from the first slash at p1 and the first
  -- question mark behind it.
  unfoldable pub read_query : ℕ → Bytes → Bytes → ℕ → ℕ → Option ℕ → Option Url
  unfolding read_parts fragment between between_or_rest
  read_query fuel s host p1 proto none =
      read_parts fuel host (unhexed_string (between_or_rest s p1 (fragment s proto))) [] proto
  read_query fuel s host p1 proto (some q) =
      read_parts fuel host (unhexed_string (between s p1 q))
        (between_or_rest s (q + 1) (fragment s proto)) proto

  -- `host`, from the position p behind the scheme and that of the first slash from there on.
  unfoldable pub read_host : ℕ → Bytes → ℕ → ℕ → Option ℕ → Option Url
  unfolding read_parts read_query between find_from
  read_host fuel s p proto none = read_parts fuel (drop p s) [] [] proto
  read_host fuel s p proto (some p1) =
      read_query fuel s (between s p p1) p1 proto (find_from b'?' p1 s)

  unfoldable pub read_rest : ℕ → Bytes → Bytes × ℕ → Option Url
  unfolding read_host read_proto find_from
  read_rest fuel s (name, p) = read_host fuel s p (read_proto s name) (find_from b'/' p s)

  -- URL::URL (const std::string &)
  unfoldable pub read_url : ℕ → Bytes → Option Url
  unfolding find_scheme split_scheme read_rest
  read_url fuel s = read_rest fuel s (split_scheme s (find_scheme s))
