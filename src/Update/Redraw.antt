-- ===== src/Update/Redraw.antt =====
-- main/dqueue.cc: the list of the downloads to draw again, against the list of numbers it stands for.
use d4x.Prelude.{
  ℕ, ◌<◌, Bool, true, false, ◌&&◌, ◌||◌, not, List, [], ◌∷◌, ◌++◌, ◌==◌, if◌then◌else◌, ◌≡◌, refl,
  arith, All, sym, if_intro,
}
use mathlib.Core.Path.{subst}
use d4x.Update.{Update, write, is_out, link_last, add_without_lock, unlink, del, update}
use d4x.Update.Chain.{
  after, before, first_of, last_of, mem, without, IsChain, after-mem, mem-without, without-absent,
  zero-absent, before-pos, after-last_of, after-pos, after-append, before-append, without-IsChain,
  append-IsChain, first_of-append, last_of-append,
}
use d4x.Update.Removal.{
  before-first_of, after-without, before-without, first_of-without, last_of-without,
}

-- The pointers are those of the list.
abbrev pub Represents : Update → List ℕ → Type 0
Represents u xs =
    (u.first ≡ first_of xs)
    × (u.last ≡ last_of xs)
    × IsChain xs
    × ((e : ℕ) → 0 < e → (u.next2update e ≡ after xs e) × (u.prev2update e ≡ before xs e))

-- The test for being in no list is right: a member has a neighbour or is the first.
is_out-mem :
    (u : Update) (xs : List ℕ) (d : ℕ) → Represents u xs → 0 < d → is_out u d ≡ not (mem d xs)
unfolding is_out first_of last_of after before
is_out-mem u [] d (f, l, c, n) p = ground (arith, n d p)
is_out-mem u (a ∷ xs) d (f, l, (m, q, c), n) p =
    ground (arith, n d p, after-mem (a ∷ xs) d, before-pos a xs d (m, q, c))

link_last-Represents :
    (u : Update) (xs : List ℕ) (d : ℕ)
    → Represents u xs
    → 0 < d
    → mem d xs ≡ false
    → Represents (link_last u d) (xs ++ d ∷ [])
unfolding link_last
link_last-Represents u xs d (f, l, c, n) p h = (
  rw (f, l, first_of-append xs d c) refl,
  sym (last_of-append xs d),
  append-IsChain xs d c p h,
  λ e q. (
    ground (arith, n e q, after-append xs d e c p q h),
    ground (arith, n e q, before-append xs d e h),
  ),
)

gone :
    (xs : List ℕ) (d e : ℕ)
    → IsChain xs
    → e ≡ d
    → (after (without d xs) e ≡ 0) × (before (without d xs) e ≡ 0)
gone xs d e c h = after-mem (without d xs) e (ground (arith, mem-without xs d e c))

-- A member has none before it just when it is the first, and none after it just when it is the last.
before-ends :
    (xs : List ℕ) (d : ℕ)
    → IsChain xs
    → 0 < d
    → mem d xs ≡ true
    → (before xs d == 0) ≡ (d == first_of xs)
unfolding first_of
before-ends [] d c p h = cc
before-ends (a ∷ xs) d c p h = ground (arith, before-pos a xs d c, before-first_of (a ∷ xs) d c p)

after-ends :
    (xs : List ℕ) (d : ℕ)
    → IsChain xs
    → 0 < d
    → mem d xs ≡ true
    → (after xs d == 0) ≡ (d == last_of xs)
after-ends xs d c p h = ground (arith, after-pos xs d c h, after-last_of xs d c)

-- The neighbour's pointer is written, if there is a neighbour, and then that of the download.
write-if :
    (c : Bool) (f : ℕ → ℕ) (k v d e : ℕ)
    → write (if c then f else write f k v) d 0 e
      ≡ (if e == d then 0 else if not c && (e == k) then v else f e)
write-if true f k v d e = refl
write-if false f k v d e = refl

unlink-Represents :
    (u : Update) (xs : List ℕ) (d : ℕ)
    → Represents u xs
    → 0 < d
    → mem d xs ≡ true
    → Represents (unlink u d) (without d xs)
unfolding unlink
unlink-Represents u xs d (f, l, c, n) p h = (
  ground (arith, n d p, before-ends xs d c p h, first_of-without xs d),
  ground (arith, n d p, after-ends xs d c p h, last_of-without xs d c p),
  without-IsChain xs d c,
  λ e q. (
    rw (write-if (u.prev2update d == 0) u.next2update (u.prev2update d) (u.next2update d) d e)
        (ground (arith, n d p, n e q, after-without xs d e c p q, gone xs d e c)),
    rw (write-if (u.next2update d == 0) u.prev2update (u.next2update d) (u.prev2update d) d e)
        (ground (arith, n d p, n e q, before-without xs d e c p q, gone xs d e c)),
  ),
)

-- What the list is for: each download that is to be drawn again, once, in the order of the requests.
abbrev pub mark : ℕ → List ℕ → List ℕ
mark d xs = if mem d xs then xs else xs ++ d ∷ []

-- The download a request is for: the whole of which `dwn` is a part, if it is one.
abbrev pub whole : (ℕ → ℕ) → ℕ → ℕ
whole grandparent dwn = if grandparent dwn == 0 then dwn else grandparent dwn

if_both :
    (P : Update → List ℕ → Type 0) (b : Bool) {u v : Update} {xs ys : List ℕ}
    → (b ≡ true → P u xs)
    → (b ≡ false → P v ys)
    → P (if not b then v else u) (if b then xs else ys)
if_both P true f g = f refl
if_both P false f g = g refl

-- If the pointers are those of a list, then after add_without_lock of a download they are those of
-- that list with the download, or the one it is a part of, at its end if it was not in it.
pub add_without_lock-Represents :
    (grandparent : ℕ → ℕ) (u : Update) (xs : List ℕ) (dwn : ℕ)
    → 0 < dwn
    → Represents u xs
    → Represents (add_without_lock grandparent u dwn) (mark (whole grandparent dwn) xs)
unfolding add_without_lock
add_without_lock-Represents grandparent u xs dwn p r =
    let d = whole grandparent dwn in
    let q : 0 < d = ground arith in
    rw (is_out-mem u xs d r q)
      (if_both Represents (mem d xs) (λ h. r) (λ h. link_last-Represents u xs d r q h))

-- If the pointers are those of a list, then after del of any pointer, NULL included, they are those of
-- that list without it.
pub del-Represents :
    (u : Update) (xs : List ℕ) (d : ℕ) → Represents u xs → Represents (del u d) (without d xs)
unfolding del is_out
del-Represents u xs d (f, l, c, n) =
    let r : Represents u xs = (f, l, c, n) in
    if_intro (λ v. Represents v (without d xs))
      ((d == 0) || ((u.next2update d == 0) && (u.prev2update d == 0) && not (d == u.first))) {x = u}
      {y = unlink u d}
      (λ h.
        subst (Represents u)
          (sym (without-absent xs d (ground (arith, is_out-mem u xs d r, zero-absent xs c)))) r)
      (λ h.
        let p : 0 < d = ground arith in
        unlink-Represents u xs d r p (ground (arith, is_out-mem u xs d r p)))

-- The requests for the downloads of a list, one after the other.
abbrev pub marks : (ℕ → ℕ) → List ℕ → List ℕ → List ℕ
marks grandparent [] xs = xs
marks grandparent (dwn ∷ rest) xs = marks grandparent rest (mark (whole grandparent dwn) xs)

-- If the pointers are those of a list, then after update of a list of downloads they are those of the
-- list to which each of them, or the one it is a part of, was added at the end where it was not in it.
pub update-Represents :
    (grandparent : ℕ → ℕ) (dwns : List ℕ) (u : Update) (xs : List ℕ)
    → All (λ dwn. 0 < dwn) dwns
    → Represents u xs
    → Represents (update grandparent dwns u) (marks grandparent dwns xs)
unfolding update
update-Represents grandparent [] u xs q r = r
update-Represents grandparent (dwn ∷ rest) u xs (p, ps) r =
    update-Represents grandparent rest (add_without_lock grandparent u dwn)
      (mark (whole grandparent dwn) xs) ps (add_without_lock-Represents grandparent u xs dwn p r)
