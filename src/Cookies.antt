-- ===== src/Cookies.antt =====
-- main/cookie.cc and main/cookie.h: the cookies, their order in the tree of main/sort.cc by the ends
-- of their hosts, the searches of tCookiesTree, and the loading and saving of its file. `new` gives
-- one address after the other.
pub mod Order
pub mod Passed
pub mod Exact
pub mod Files
pub mod Once
pub mod Words
pub mod Saved
mod Tests
pub mod RoundTrip
use Prim.Native.Nat.{compare, Ordering}
use mathlib.Core.List.{reverse}
use d4x.Prelude.{
  ℕ, zero, suc, ◌+◌, ◌%◌, Bool, true, false, ◌&&◌, Option, none, some, List, [], ◌∷◌, ◌++◌, ◌==◌,
  if◌then◌else◌, Bytes, same_text, drop,
}
use d4x.SortTree.{Nodes, Tree, leaf, node, SortTree, lt}
use d4x.Strings.Case.{string_ended}

-- tCookie, with its address.
pub record Cookie : Type 0 where
  pub at : ℕ
  pub host : Bytes
  pub path : Bytes
  pub name : Bytes
  pub value : Bytes
  pub time_of_life : ℕ
  pub myown : Bool

-- A byte as a `char`, moved up by 128.
unfoldable pub signed : ℕ → ℕ
signed c = (c + 128) % 256

-- The loop of cmp_back on the bytes from the last one to the second one.
unfoldable pub cmp_loop : Bytes → Bytes → Ordering
unfolding signed
cmp_loop [] [] = Ordering.eq
cmp_loop [] (d ∷ bb) = Ordering.lt
cmp_loop (c ∷ aa) [] = Ordering.gt
cmp_loop (c ∷ aa) (d ∷ bb) =
    let more = cmp_loop aa bb in
    if signed d == signed c then more else compare (signed d) (signed c)

-- cmp_back: the first byte of a string is never compared.
unfoldable pub cmp_back : Bytes → Bytes → Ordering
unfolding cmp_loop
cmp_back a b = cmp_loop (reverse (drop 1 a)) (reverse (drop 1 b))

-- tCookie::cmp
instance abbrev pub cookie_nodes : Nodes Cookie
cookie_nodes = record { cmp = λ a b. cmp_back b.host a.host; addr = λ a. a.at }

unfoldable pub is_lt : Ordering → Bool
is_lt Ordering.lt = true
is_lt Ordering.eq = false
is_lt Ordering.gt = false

-- What the loop of tCookiesTree::find does with `temp`: the subtree of the cookie that it returns,
-- or a leaf for NULL.
unfoldable pub look : Tree Cookie → Bytes → Tree Cookie
unfolding is_lt cmp_back string_ended
look leaf what = leaf
look (node less c more) what =
    let on_more = look more what in
    let on_less = look less what in
    if string_ended c.host what
    then node less c more
    else if is_lt (cmp_back what c.host)
    then on_more
    else on_less

-- tCookiesTree::find from the cookie at the top of a subtree.
unfoldable pub find_from : Tree Cookie → Bytes → Tree Cookie
unfolding look is_lt cmp_back
find_from leaf what = leaf
find_from (node less c more) what = look (if is_lt (cmp_back what c.host) then more else less) what

-- tCookiesTree::find
unfoldable pub find : Tree Cookie → Bytes → Tree Cookie
unfolding find_from string_ended
find leaf what = leaf
find (node less c more) what =
    if string_ended c.host what then node less c more else find_from (node less c more) what

unfoldable pub same_cookie : Cookie → Cookie → Bool
same_cookie cookie temp = same_text cookie.path temp.path && same_text cookie.name temp.name

-- The loop of tCookiesTree::find_exact at `temp`; the outer `none` means that the fuel did not
-- suffice.
unfoldable pub exact_loop : ℕ → Cookie → Tree Cookie → Option (Option Cookie)
unfolding same_cookie find_from
exact_loop fuel cookie leaf = some none
exact_loop zero cookie (node less temp more) = none
exact_loop (suc fuel) cookie (node less temp more) =
    let on = exact_loop fuel cookie (find_from (node less temp more) cookie.host) in
    if same_cookie cookie temp then some (some temp) else on

-- The cookies of a tree from its top on along the longest branch.
unfoldable pub height : Tree Cookie → ℕ
height leaf = 0
height (node less c more) = suc (height less + height more)

-- tCookiesTree::find_exact
unfoldable pub find_exact : Tree Cookie → Cookie → Option (Option Cookie)
unfolding exact_loop find height
find_exact top cookie = exact_loop (height top) cookie (find top cookie.host)
