-- ===== src/Cookies/Once.antt =====
-- No cookie is loaded twice.
use d4x.Prelude.{
  ℕ, zero, suc, ◌≤◌, ◌<◌, Bool, false, Option, none, some, List, [], ◌∷◌, ◌==◌, if_intro, Bytes,
  length, All, ◌≡◌, refl, sym, arith,
}
use d4x.Cookies.{Cookie, cookie_nodes, find_exact}
use d4x.Cookies.Exact.{Apart, Exact, find_exact-Exact}
use d4x.Cookies.Files.{
  read_cookie, is_empty, is_comment, kept, keep_cookie, load_line, go_on, load_from_file,
}
use d4x.Cookies.Order.{cookie-IsOrder}
use d4x.SortTree.{SortTree, lt}
use d4x.SortTree.Add.{All-insort, add-insort}
use d4x.SortTree.InOrder.{to_list, insort, IsTree}
use d4x.TextFile.{max_len, f_rstr, read_line, line, store, no_line, Line}

-- No two cookies of the list have one host, path and name.
unfoldable pub NoTwice : List Cookie → Type 0
NoTwice [] = Unit
NoTwice (a ∷ l) = All (Apart a) l × NoTwice l

Apart-sym : (a b : Cookie) → Apart a b → Apart b a
Apart-sym a b h p q r = h (sym p) (sym q) (sym r)

NoTwice-insort : (x : Cookie) (l : List Cookie) → All (Apart x) l → NoTwice l → NoTwice (insort x l)
unfolding NoTwice
NoTwice-insort x [] h k = (tt, tt)
NoTwice-insort x (a ∷ l) (h, hs) (k, ks) =
    if_intro NoTwice (lt a x) {x = a ∷ insort x l} {y = x ∷ a ∷ l}
      (λ e. (All-insort (Apart a) x l (Apart-sym x a h) k, NoTwice-insort x l hs ks))
      (λ e. ((h, hs), (k, ks)))

-- A tree in search order without a cookie twice.
unfoldable pub IsStore : SortTree Cookie → Type 0
IsStore t = IsTree t × NoTwice (to_list t.top)

unfoldable Stores : Option (SortTree Cookie) → Type 0
Stores none = ⊥
Stores (some t) = IsStore t

kept-Stores :
    (t : SortTree Cookie) (cookie : Cookie) (o : Option (Option Cookie))
    → IsStore t
    → Exact cookie t.top o
    → Stores (kept t cookie o)
unfolding kept Exact Stores IsStore
kept-Stores t cookie none h e = e
kept-Stores t cookie (some none) (h, k) e =
    let (tree, list) = add-insort cookie-IsOrder t cookie h in
    (tree, rw list (NoTwice-insort cookie (to_list t.top) e k))
kept-Stores t cookie (some (some found)) h e = h

load_line-Stores :
    (at : ℕ) (myown : Bool) (temp : Bytes) (t : SortTree Cookie)
    → IsStore t
    → Stores (load_line at myown temp t)
unfolding load_line keep_cookie Stores IsStore
load_line-Stores at myown temp t h =
    let cookie = read_cookie at myown temp in
    if_intro Stores (is_comment temp) (λ _. h)
      (λ _.
        if_intro Stores (is_empty cookie.path) (λ _. h)
          (λ _.
            kept-Stores t cookie (find_exact t.top cookie) h
              (find_exact-Exact t.top cookie h.0.ordered)))

-- What f_rstr leaves of the file behind a line.
read_line-shorter : (i : ℕ) (s : Bytes) → length (read_line i s).rest ≤ length s
unfolding read_line line store
read_line-shorter zero [] = omega arith
read_line-shorter zero (c ∷ s) = omega arith
read_line-shorter (suc i) [] = omega arith
read_line-shorter (suc i) (c ∷ s) =
    if_intro (λ (l : Line). length l.rest ≤ suc (length s)) (c == 10) (λ _. omega arith)
      (λ _. omega (arith, read_line-shorter i s))

read_line-lt :
    (i : ℕ) (s : Bytes)
    → no_line (read_line i s).count ≡ false
    → length (read_line i s).rest < length s
unfolding read_line line store no_line
read_line-lt zero [] h = cc
read_line-lt zero (c ∷ s) h = omega arith
read_line-lt (suc i) [] h = cc
read_line-lt (suc i) (c ∷ s) h =
    if_intro (λ (l : Line). length l.rest < suc (length s)) (c == 10) (λ _. omega arith)
      (λ _. omega (arith, read_line-shorter i s))

f_rstr-shorter :
    (s : Bytes)
    → no_line (f_rstr max_len s).count ≡ false
    → length (f_rstr max_len s).rest < length s
unfolding f_rstr
f_rstr-shorter s h = read_line-lt 4047 s h

from_Stores :
    (o : Option (SortTree Cookie)) → Stores o → (t : SortTree Cookie) × (o ≡ some t) × IsStore t
unfolding Stores
from_Stores none h = absurd h
from_Stores (some t) h = (t, refl, h)

go_on-Stores :
    (k : SortTree Cookie → Option (SortTree Cookie)) (o : Option (SortTree Cookie))
    → ((t : SortTree Cookie) → IsStore t → Stores (k t))
    → Stores o
    → Stores (go_on k o)
unfolding go_on Stores
go_on-Stores k none f h = h
go_on-Stores k (some t) f h = f t h

load_from_file-Stores :
    (fuel at : ℕ) (myown : Bool) (file : Bytes) (t : SortTree Cookie)
    → IsStore t
    → length file < fuel
    → Stores (load_from_file fuel at myown file t)
unfolding load_from_file Stores
load_from_file-Stores zero at myown file t h l = absurd (omega (arith, l))
load_from_file-Stores (suc fuel) at myown file t h l =
    let read = f_rstr max_len file in
    if_intro Stores (no_line read.count) (λ _. h)
      (λ more.
        go_on-Stores (load_from_file fuel (suc at) myown read.rest) (load_line at myown read.text t)
          (λ t' h'.
            load_from_file-Stores fuel (suc at) myown read.rest t' h'
              (omega (arith, l, f_rstr-shorter file more)))
          (load_line-Stores at myown read.text t h))

-- With fuel for more than the bytes of a file, the loading of cookies comes to an end, whatever the
-- file holds. Loaded into a tree in search order in which no two cookies have one host, path and
-- name, it leaves such a tree.
pub load_from_file-IsStore :
    (fuel at : ℕ) (myown : Bool) (file : Bytes) (t : SortTree Cookie)
    → IsStore t
    → length file < fuel
    → (t' : SortTree Cookie) × (load_from_file fuel at myown file t ≡ some t') × IsStore t'
load_from_file-IsStore fuel at myown file t h l =
    from_Stores (load_from_file fuel at myown file t)
      (load_from_file-Stores fuel at myown file t h l)
