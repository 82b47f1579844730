-- ===== src/Cookies/Tests.antt =====
-- Runs of the cookies, and the theorems about them at concrete cookies.
use Prim.Native.Nat.{Ordering}
use d4x.Prelude.{
  ◌<◌, true, false, Option, some, [], ◌++◌, Bytes, codes, length, All, ◌≡◌, refl, arith,
}
use d4x.Cookies.{Cookie, cookie_nodes, cmp_back, find_exact}
use d4x.Cookies.Exact.{Exact, find_exact-Exact}
use d4x.Decimal.{print_number}
use d4x.Hex.{hexed_string}
use d4x.Xml.{is_space}
use d4x.Cookies.Files.{is_empty, is_comment, load_from_file, save_cookie}
use d4x.Cookies.Once.{NoTwice, IsStore, load_from_file-IsStore}
use d4x.Cookies.RoundTrip.{own_cookies, load_all, load_from_file-save_cookie}
use d4x.Cookies.Saved.{IsSavable, cookie_line}
use d4x.Cookies.Words.{IsWord, NoSpace}
use d4x.SortTree.{SortTree, leaf, node}
use d4x.TextFile.Lines.{fits, Appends}

-- Hosts that differ in their first byte alone are the same for the tree.
first_byte_ignored : cmp_back (codes "a.x") (codes "b.x") ≡ Ordering.eq
unfolding cmp_back
first_byte_ignored = refl

abbrev shop : Cookie
shop = record {
  at = 1;
  host = codes "a.x";
  path = codes "/";
  name = codes "n";
  value = codes "v";
  time_of_life = 7;
  myown = true;
}

abbrev wider : Cookie
wider = record shop { at = 2; host = codes ".x" }

-- The cookie of a wider domain is taken for the one that was looked for.
wider_found : find_exact (node leaf wider leaf) shop ≡ some (some wider)
unfolding find_exact
wider_found = refl

abbrev no_cookies : SortTree Cookie
no_cookies = record { top = leaf; num = 0 }

no_cookies-IsStore : IsStore no_cookies
unfolding IsStore NoTwice
no_cookies-IsStore = (record { ordered = tt; counted = refl }, tt)

load_from_file-IsStore_example :
    (t' : SortTree Cookie) × (load_from_file 60 1 false
        (codes "a.x F / F 7 n v\na.x F / F 8 n w\n")
        no_cookies
      ≡ some t')
    × IsStore t'
load_from_file-IsStore_example =
    load_from_file-IsStore 60 1 false (codes "a.x F / F 7 n v\na.x F / F 8 n w\n") no_cookies
      no_cookies-IsStore (omega arith)

find_exact-Exact_example :
    Exact shop (node leaf wider leaf) (find_exact (node leaf wider leaf) shop)
find_exact-Exact_example = find_exact-Exact (node leaf wider leaf) shop (tt, tt, tt, tt)

abbrev disk : Bytes → Bytes → Option Bytes
disk file s = some (file ++ s)

disk-Appends : Appends disk
unfolding Appends
disk-Appends file s = refl

shop-IsSavable : IsSavable shop
unfolding IsWord NoSpace fits is_space is_empty is_comment cookie_line hexed_string print_number
shop-IsSavable = record {
  host_word = (refl, (refl, (refl, tt)));
  has_path = refl;
  has_name = refl;
  has_value = refl;
  no_comment = refl;
  line_fits = refl;
}

one_own : All IsSavable (own_cookies (node leaf shop leaf))
unfolding own_cookies
one_own = (shop-IsSavable, tt)

few : length (own_cookies (node leaf shop leaf)) < 3
unfolding own_cookies
few = omega arith

load_from_file-save_cookie_example :
    load_from_file 3 1 true (save_cookie disk (node leaf shop leaf) []) no_cookies
    ≡ load_all 1 true (own_cookies (node leaf shop leaf)) no_cookies
load_from_file-save_cookie_example =
    load_from_file-save_cookie disk 3 1 true (node leaf shop leaf) no_cookies disk-Appends one_own
      few
