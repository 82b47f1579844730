-- ===== src/Cookies/Files.antt =====
-- main/cookie.cc: load_from_file and save_cookie.
use d4x.Prelude.{
  ℕ, zero, suc, Bool, true, false, Option, none, some, List, [], ◌∷◌, ◌==◌, if◌then◌else◌, Bytes,
  codes, get_elem?,
}
use d4x.Cookies.{Cookie, find_exact, cookie_nodes}
use d4x.Decimal.{print_number, scan_number}
use d4x.Hex.{hexed_string}
use d4x.Schedule.Files.{ignored}
use d4x.Schedule.{stored}
use d4x.SortTree.{Tree, leaf, node, SortTree, add}
use d4x.TextFile.{max_len, f_rstr, f_wstr, no_line}
use d4x.Xml.{is_space}

-- The word that `>>` reads into a string, and what is left; the first loop skips white space. If
-- there is no word the string stays as it is, and it was empty.
unfoldable pub skip_white : Bytes → Bytes
unfolding is_space
skip_white [] = []
skip_white (c ∷ s) = let more = skip_white s in if is_space c then more else c ∷ s

unfoldable pub word_of : Bytes → Bytes
unfolding is_space
word_of [] = []
word_of (c ∷ s) = let more = c ∷ word_of s in if is_space c then [] else more

unfoldable pub behind_word : Bytes → Bytes
unfolding is_space
behind_word [] = []
behind_word (c ∷ s) = let more = behind_word s in if is_space c then c ∷ s else more

unfoldable pub next_word : Bytes → Bytes × Bytes
unfolding skip_white word_of behind_word
next_word s = (word_of (skip_white s), behind_word (skip_white s))

-- So many strings read by `>>`, one after the other.
unfoldable pub words : ℕ → Bytes → List Bytes
unfolding next_word
words zero s = []
words (suc n) s = (next_word s).0 ∷ words n (next_word s).1

unfoldable pub nth_word : List Bytes → ℕ → Bytes
unfolding stored
nth_word ws i = stored (get_elem? ws i) []

-- The cookie of the words of a line; its time is that of atoll, which is 0 for a text that does not
-- begin with a digit. A sign is not modelled.
unfoldable pub cookie_of : ℕ → Bool → List Bytes → Cookie
unfolding nth_word stored scan_number
cookie_of at myown ws = record {
  at = at;
  host = nth_word ws 0;
  path = nth_word ws 2;
  name = nth_word ws 5;
  value = nth_word ws 6;
  time_of_life = stored (scan_number (nth_word ws 4)) 0;
  myown = myown;
}

-- `ist>>cookie->host>>s>>cookie->path>>s>>t>>cookie->name>>cookie->value`
unfoldable pub read_cookie : ℕ → Bool → Bytes → Cookie
unfolding cookie_of words
read_cookie at myown temp = cookie_of at myown (words 7 temp)

unfoldable pub is_empty : Bytes → Bool
is_empty [] = true
is_empty (c ∷ s) = false

-- `*temp!='#'`
unfoldable pub is_comment : Bytes → Bool
is_comment [] = false
is_comment (c ∷ s) = c == b'#'

-- The cookie is deleted if find_exact has found one, else added.
unfoldable pub kept : SortTree Cookie → Cookie → Option (Option Cookie) → Option (SortTree Cookie)
unfolding add
kept t cookie none = none
kept t cookie (some none) = some (add t cookie)
kept t cookie (some (some found)) = some t

unfoldable pub keep_cookie : SortTree Cookie → Cookie → Option (SortTree Cookie)
unfolding is_empty find_exact kept
keep_cookie t cookie =
    if is_empty cookie.path then some t else kept t cookie (find_exact t.top cookie)

-- A line that f_rstr has read.
unfoldable pub load_line : ℕ → Bool → Bytes → SortTree Cookie → Option (SortTree Cookie)
unfolding keep_cookie read_cookie is_comment
load_line at myown temp t =
    if is_comment temp then some t else keep_cookie t (read_cookie at myown temp)

unfoldable pub go_on :
    (SortTree Cookie → Option (SortTree Cookie))
    → Option (SortTree Cookie)
    → Option (SortTree Cookie)
go_on k none = none
go_on k (some t) = k t

-- tCookiesTree::load_from_file, with fuel for its loop; `none` means that it did not suffice.
unfoldable pub load_from_file : ℕ → ℕ → Bool → Bytes → SortTree Cookie → Option (SortTree Cookie)
unfolding load_line no_line f_rstr go_on
load_from_file zero at myown file t = none
load_from_file (suc fuel) at myown file t =
    let l = f_rstr max_len file in
    let more = go_on (load_from_file fuel (suc at) myown l.rest) (load_line at myown l.text t) in
    if no_line l.count then some t else more

module _ (sys_write : Bytes → Bytes → Option Bytes) where
  -- f_wstr one after the other, whose results are not looked at.
  unfoldable pub write_all : List Bytes → Bytes → Bytes
  unfolding ignored f_wstr
  write_all [] file = file
  write_all (str ∷ texts) file = write_all texts (ignored (f_wstr sys_write str) file)

  -- The texts that save_cookie writes for a cookie.
  unfoldable pub cookie_texts : Cookie → List Bytes
  unfolding print_number hexed_string
  cookie_texts what =
      what.host
      ∷ codes "\tFALSE\t"
      ∷ hexed_string what.path
      ∷ codes "\tFALSE\t"
      ∷ print_number what.time_of_life
      ∷ codes "\t"
      ∷ hexed_string what.name
      ∷ codes "\t"
      ∷ hexed_string what.value
      ∷ codes "\n"
      ∷ []

  -- tCookiesTree::save_cookie
  unfoldable pub save_cookie : Tree Cookie → Bytes → Bytes
  unfolding write_all cookie_texts
  save_cookie leaf file = file
  save_cookie (node less what more) file =
      save_cookie more
        (save_cookie less (if what.myown then write_all (cookie_texts what) file else file))
