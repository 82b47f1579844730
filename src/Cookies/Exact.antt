-- ===== src/Cookies/Exact.antt =====
-- What find_exact finds: the search passes every cookie of the host.
use d4x.Prelude.{
  ℕ, zero, suc, ◌+◌, ◌≤◌, true, false, Option, none, some, ◌∷◌, if◌then◌else◌, if_intro, Bytes, All,
  All-append_right, All-map, same_text, same_text_refl, same_text→eq, ◌≡◌, refl, sym, arith,
}
use d4x.Cookies.{
  Cookie, cmp_back, cookie_nodes, is_lt, look, find_from, find, same_cookie, exact_loop, height,
  find_exact,
}
use d4x.SortTree.{Tree, leaf, node}
use d4x.SortTree.InOrder.{to_list, Ordered}
use d4x.Strings.Case.{string_ended}
use d4x.Cookies.Passed.{clash, Within, find_from-covers, find-covers, find_from-Within, find-Within}
use d4x.SortTree.Search.{Occurs, All-Occurs}

-- A part of a tree that is not higher, and in order if the tree is.
unfoldable Part : ℕ → Tree Cookie → Type 0
unfolding height
Part n t = Ordered t × (height t ≤ n)

Part-le : (m n : ℕ) (t : Tree Cookie) → Part m t → m ≤ n → Part n t
unfolding Part
Part-le m n t (o, h) l = (o, omega (arith, h, l))

look-Part : (what : Bytes) (t : Tree Cookie) → Ordered t → Part (height t) (look t what)
unfolding look Part height
look-Part what leaf o = (tt, omega arith)
look-Part what (node l a m) (hl, hm, ol, om) =
    if_intro (Part (height (node l a m))) (string_ended a.host what)
      (λ e. ((hl, hm, ol, om), omega arith))
      (λ e.
        if_intro (Part (height (node l a m))) (is_lt (cmp_back what a.host))
          (λ less.
            Part-le (height m) (height (node l a m)) (look m what) (look-Part what m om)
              (omega arith))
          (λ less.
            Part-le (height l) (height (node l a m)) (look l what) (look-Part what l ol)
              (omega arith)))

find_from-Part :
    (what : Bytes) (l : Tree Cookie) (a : Cookie) (m : Tree Cookie)
    → Ordered (node l a m)
    → Part (height l + height m) (find_from (node l a m) what)
unfolding find_from Part height
find_from-Part what l a m (hl, hm, ol, om) =
    let side = if is_lt (cmp_back what a.host) then m else l in
    let (o, h) =
      if_intro (Part (height l + height m)) (is_lt (cmp_back what a.host)) {x = m} {y = l}
        (λ e. (om, omega arith)) (λ e. (ol, omega arith)) in
    Part-le (height side) (height l + height m) (look side what) (look-Part what side o) h

-- Two cookies that differ in the host, the path or the name.
abbrev pub Apart : Cookie → Cookie → Type 0
Apart a b = a.host ≡ b.host → a.path ≡ b.path → a.name ≡ b.name → ⊥

abbrev Missing : Cookie → Cookie → Type 0
Missing cookie d = d.host ≡ cookie.host → same_cookie cookie d ≡ false

Missing→Apart : (a b : Cookie) → Missing a b → Apart a b
unfolding same_cookie
Missing→Apart a b h p q r =
    let differs : same_cookie a b ≡ false = h (sym p) in
    let same : same_cookie a b ≡ true =
      rw (q, r, same_text_refl b.path, same_text_refl b.name) refl in
    clash (same_cookie a b) same differs

same_cookie→eq : (a b : Cookie) → same_cookie a b ≡ true → (b.path ≡ a.path) × (b.name ≡ a.name)
unfolding same_cookie
same_cookie→eq a b h =
    let (p, q) : (same_text a.path b.path ≡ true) × (same_text a.name b.name ≡ true) =
      (ground arith, ground arith) in
    (sym (same_text→eq a.path b.path p), sym (same_text→eq a.name b.name q))

module _ (P : Cookie → Type 0) where
  -- What the loop returns by the tests that it has made.
  unfoldable Searched : Cookie → Tree Cookie → Option (Option Cookie) → Type 0
  Searched cookie t none = ⊥
  Searched cookie t (some none) = All (Missing cookie) (to_list t)
  Searched cookie t (some (some found)) = (same_cookie cookie found ≡ true) × P found

  Searched-covers :
      (cookie : Cookie) (t u : Tree Cookie) (o : Option (Option Cookie))
      → (All (Missing cookie) (to_list u) → All (Missing cookie) (to_list t))
      → Searched cookie u o
      → Searched cookie t o
  unfolding Searched
  Searched-covers cookie t u none f h = h
  Searched-covers cookie t u (some none) f h = f h
  Searched-covers cookie t u (some (some found)) f h = h

  exact_loop-Searched :
      (fuel : ℕ) (cookie : Cookie) (t : Tree Cookie)
      → Part fuel t
      → Within P cookie.host t
      → Searched cookie t (exact_loop fuel cookie t)
  unfolding exact_loop Searched Part height Within
  exact_loop-Searched zero cookie leaf h w = tt
  exact_loop-Searched (suc fuel) cookie leaf h w = tt
  exact_loop-Searched zero cookie (node l a m) (o, h) w = absurd (omega (arith, h))
  exact_loop-Searched (suc fuel) cookie (node l a m) (o, h) w =
      let rest = find_from (node l a m) cookie.host in
      if_intro (Searched cookie (node l a m)) (same_cookie cookie a)
        (λ same. (same, (All-append_right P (to_list l) (a ∷ to_list m) w).0))
        (λ differs.
          Searched-covers cookie (node l a m) rest (exact_loop fuel cookie rest)
            (find_from-covers (λ d. same_cookie cookie d ≡ false) cookie.host l a m o
              (λ e. differs))
            (exact_loop-Searched fuel cookie rest
              (Part-le (height l + height m) fuel rest (find_from-Part cookie.host l a m o)
                (omega (arith, h)))
              (find_from-Within P cookie.host (node l a m) w)))

find-Part : (what : Bytes) (t : Tree Cookie) → Ordered t → Part (height t) (find t what)
unfolding find Part height
find-Part what leaf o = (tt, omega arith)
find-Part what (node l a m) o =
    if_intro (Part (height (node l a m))) (string_ended a.host what) (λ e. (o, omega arith))
      (λ e.
        Part-le (height l + height m) (height (node l a m)) (find_from (node l a m) what)
          (find_from-Part what l a m o) (omega arith))

-- A result of find_exact: no cookie of the tree has the host, the path and the name of the one that
-- was looked for, or the one that was found is in the tree and has its path and its name.
unfoldable pub Exact : Cookie → Tree Cookie → Option (Option Cookie) → Type 0
Exact cookie t none = ⊥
Exact cookie t (some none) = All (Apart cookie) (to_list t)
Exact cookie t (some (some found)) =
    Occurs found (to_list t) × (found.path ≡ cookie.path) × (found.name ≡ cookie.name)

Searched→Exact :
    (cookie : Cookie) (t : Tree Cookie) (o : Option (Option Cookie))
    → Searched (λ d. Occurs d (to_list t)) cookie t o
    → Exact cookie t o
unfolding Searched Exact
Searched→Exact cookie t none h = h
Searched→Exact cookie t (some none) h =
    All-map (Missing cookie) (Apart cookie) (to_list t) (Missing→Apart cookie) h
Searched→Exact cookie t (some (some found)) (same, inside) =
    let (path, name) = same_cookie→eq cookie found same in (inside, path, name)

-- In a tree in search order the search for a cookie comes to an end. Either the cookie that it finds
-- is one of the tree that has the path and the name of the one that was looked for, or no cookie of
-- the tree has its host, path and name.
pub find_exact-Exact :
    (t : Tree Cookie) (cookie : Cookie) → Ordered t → Exact cookie t (find_exact t cookie)
unfolding find_exact Within
find_exact-Exact t cookie o =
    let top = find t cookie.host in
    Searched→Exact cookie t (exact_loop (height t) cookie top) (
      Searched-covers (λ d. Occurs d (to_list t)) cookie t top (exact_loop (height t) cookie top)
        (find-covers (λ d. same_cookie cookie d ≡ false) cookie.host t o)
        (exact_loop-Searched (λ d. Occurs d (to_list t)) (height t) cookie top
          (find-Part cookie.host t o)
          (find-Within (λ d. Occurs d (to_list t)) cookie.host t (All-Occurs (to_list t)))))
