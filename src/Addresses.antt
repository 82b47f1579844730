-- ===== src/Addresses.antt =====
-- main/addr.cc and main/addr.h: addresses, d4x::URL, from the table of the protocols to the output. The
-- rest of addr.cc is commented out. A string is the list of its bytes, positions are below 2^64, and
-- ports are not negative. The C library's atoi is a parameter.
pub mod Reading
pub mod Find
pub mod Slashes
pub mod Saved
pub mod Printed
pub mod Compare
mod Tests
use d4x.Prelude.{
  ℕ, zero, suc, ◌+◌, ◌-◌, ◌≤◌, Bool, true, false, ◌&&◌, ◌||◌, not, Option, none, some, List, [],
  ◌∷◌, ◌++◌, ◌==◌, ltb, leb, if◌then◌else◌, Bytes, codes, take, drop, length, same_text,
}
use d4x.TextFile.{equal_uncase}
use d4x.Strings.{begin_string, begin_string_uncase}
use d4x.Hex.{hexed_string, unhexed_string}
use d4x.Decimal.{print_number}
use d4x.Paths.{normalize, append}

-- enum D_PROTOS
abbrev pub proto_unknown : ℕ
proto_unknown = 0

abbrev pub proto_ftp : ℕ
proto_ftp = 1

abbrev pub proto_http : ℕ
proto_http = 2

abbrev pub proto_https : ℕ
proto_https = 3

abbrev pub proto_search : ℕ
proto_search = 4

abbrev pub proto_socks : ℕ
proto_socks = 5

abbrev pub proto_last : ℕ
proto_last = 6

-- The names of proto_infos, which is read with a protocol below D_PROTO_LAST.
unfoldable pub proto_name : ℕ → Bytes
proto_name proto =
    if proto == proto_ftp
    then codes "ftp"
    else if proto == proto_http
    then codes "http"
    else if proto == proto_https
    then codes "https"
    else if proto == proto_search
    then codes "search"
    else if proto == proto_socks
    then codes "socks"
    else codes "?"

-- get_port_by_proto, the ports of proto_infos
unfoldable pub get_port_by_proto : ℕ → ℕ
get_port_by_proto proto =
    if proto == proto_ftp
    then 21
    else if (proto == proto_http) || (proto == proto_search)
    then 80
    else if proto == proto_https
    then 443
    else 0

-- get_name_by_proto of a protocol that is not negative
unfoldable pub get_name_by_proto : ℕ → Bytes
unfolding proto_name
get_name_by_proto proto = if leb proto_last proto then codes "?" else proto_name proto

-- The loop of get_proto_by_name over the protocols that are left.
unfoldable pub find_proto : Bytes → List ℕ → ℕ
unfolding equal_uncase proto_name
find_proto str [] = proto_unknown
find_proto str (i ∷ rest) =
    let more = find_proto str rest in if equal_uncase str (proto_name i) then i else more

-- get_proto_by_name of a string that is not NULL
unfoldable pub get_proto_by_name : Bytes → ℕ
unfolding find_proto
get_proto_by_name str =
    find_proto str (proto_ftp ∷ proto_http ∷ proto_https ∷ proto_search ∷ proto_socks ∷ [])

-- get_proto_by_string of a string that is not NULL; its last two results are the same.
unfoldable pub get_proto_by_string : Bytes → ℕ
unfolding begin_string_uncase
get_proto_by_string str = if begin_string_uncase str (codes "www") then proto_http else proto_ftp

-- d4x::ShortURL and d4x::URL
pub record Url : Type 0 where
  pub host : Bytes
  pub path : Bytes
  pub file : Bytes
  pub params : Bytes
  pub user : Bytes
  pub pass : Bytes
  pub tag : Bytes
  pub proto : ℕ
  pub port : ℕ
  pub mask : Bool

-- A step that needs the result of Path::normalize.
infixr 15 ◌before◌
unfoldable pub ◌before◌ {κ} : {A : Type κ} → Option Bytes → (Bytes → Option A) → Option A
none before k = none
some p before k = k p

-- `path/file`, which makes a Path of the file.
unfoldable pub join : ℕ → Bytes → Bytes → Option Bytes
unfolding append normalize ◌before◌
join fuel path file = normalize fuel file before λ f. append fuel path f

-- `portstr`
unfoldable pub port_text : ℕ → ℕ → Bytes
unfolding get_port_by_proto print_number
port_text port proto = if port == get_port_by_proto proto then [] else b':' ∷ print_number port

-- `userstr`
unfoldable pub user_text : Bytes → Bytes → Bytes
user_text [] [] = []
user_text (c ∷ user) [] = c ∷ user ++ b'@' ∷ []
user_text user (c ∷ pass) = user ++ b':' ∷ c ∷ pass ++ b'@' ∷ []

-- What follows the path: the parameters, but for FTP.
unfoldable pub params_text : ℕ → Bytes → Bytes
params_text proto [] = []
params_text proto (c ∷ params) = if proto == proto_ftp then [] else b'?' ∷ hexed_string (c ∷ params)

unfoldable pub url_text : Url → Bytes → Bytes → Option Bytes
unfolding proto_name port_text params_text
url_text u user joined = some (
    proto_name u.proto
    ++ codes "://"
    ++ user
    ++ u.host
    ++ port_text u.port u.proto
    ++ hexed_string joined
    ++ params_text u.proto u.params)

-- ShortURL::operator std::string
unfoldable pub print_short : ℕ → Url → Option Bytes
unfolding join url_text ◌before◌
print_short fuel u = join fuel u.path u.file before λ joined. url_text u [] joined

-- URL::operator std::string
unfoldable pub print_url : ℕ → Url → Option Bytes
unfolding join url_text user_text ◌before◌
print_url fuel u =
    join fuel u.path u.file before λ joined. url_text u (user_text u.user u.pass) joined

-- URL::URL (const URL &)
unfoldable pub copy : Url → Url
copy u = record u { pass = u.user }

-- URL::operator==; it compares the port and the user of an address with themselves.
unfoldable pub equal_url : Url → Url → Bool
unfolding equal_uncase
equal_url a b =
    equal_uncase a.host b.host
    && (same_text a.path b.path
        && (same_text a.file b.file
            && (same_text a.params b.params
                && ((a.proto == b.proto) && ((a.port == a.port) && same_text a.user a.user)))))

unfoldable pub is_empty : Bytes → Bool
is_empty [] = true
is_empty (c ∷ s) = false

-- URL::is_valid
unfoldable pub is_valid : Url → Bool
unfolding is_empty
is_valid u = not (is_empty u.host || (is_empty u.path || (u.port == 0)))

-- URL::copy_host
unfoldable pub copy_host : Url → Url → Url
copy_host u from = record u {
  host = from.host;
  pass = from.pass;
  user = from.user;
  port = from.port;
  proto = from.proto;
}

-- URL::clear
unfoldable pub clear : Url → Url
clear u = record u {
  pass = [];
  user = [];
  host = [];
  path = [];
  file = [];
  params = [];
  mask = false;
  port = 0;
  proto = proto_unknown;
}
