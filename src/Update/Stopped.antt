-- ===== src/Update/Stopped.antt =====
-- main/dqueue.cc: the list of the downloads whose thread has ended.
use d4x.Prelude.{
  ℕ, zero, suc, ◌<◌, ◌≢◌, false, List, [], ◌∷◌, ◌++◌, ◌==◌, if◌then◌else◌, length, length-append,
  ◌≡◌, refl, arith, sym, ◌∙◌,
}
use d4x.Update.{Update, add_stopped, del_s}
use d4x.Update.Chain.{
  after, first_of, last_of, mem, IsChain, after-mem, after-append, append-IsChain, first_of-append,
  last_of-append, after-last_of,
}
use d4x.Update.Removal.{after-link, last_of-link}

-- The pointers are those of the list.
abbrev pub Stops : Update → List ℕ → Type 0
Stops u xs =
    (u.first_s ≡ first_of xs)
    × (u.last_s ≡ last_of xs)
    × IsChain xs
    × ((e : ℕ) → 0 < e → u.next2stop e ≡ after xs e)

-- A download that is not in the list comes to its end, and its status is kept.
pub add_stopped-Stops :
    (u : Update) (xs : List ℕ) (d status : ℕ)
    → Stops u xs
    → 0 < d
    → mem d xs ≡ false
    → Stops (add_stopped u d status) (xs ++ d ∷ []) × ((add_stopped u d status).status d ≡ status)
unfolding add_stopped
add_stopped-Stops u xs d status (f, l, c, n) p h =
    rw (n d p, (after-mem xs d h).0)
      (
        (
          ground (arith, first_of-append xs d c),
          sym (last_of-append xs d),
          append-IsChain xs d c p h,
          λ e q. ground (arith, n e q, after-append xs d e c p q h),
        ),
        ground arith,
      )

first_of-pos : (xs : List ℕ) → IsChain xs → first_of xs ≡ 0 → last_of xs ≡ 0
unfolding first_of last_of
first_of-pos [] c h = refl
first_of-pos (a ∷ xs) (m, p, c) h = ground arith

-- del_s takes the first one out.
pub del_s-Stops : (u : Update) (x : ℕ) (xs : List ℕ) → Stops u (x ∷ xs) → Stops (del_s u) xs
unfolding del_s first_of last_of
del_s-Stops u x xs (f, l, (m, p, c), n) = (
  ground (arith, n x p, after-link x xs x),
  ground (arith, n x p, after-link x xs x, last_of-link x xs c, first_of-pos xs c),
  c,
  λ e q. ground (arith, n e q, after-link x xs e, after-mem xs e),
)

-- del_s, so many times.
abbrev pub taken : ℕ → Update → Update
taken zero u = u
taken (suc n) u = taken n (del_s u)

-- The pointers are those of the list, but the last one is its own successor.
abbrev Looped : Update → List ℕ → ℕ → Type 0
Looped u xs x =
    (u.first_s ≡ first_of (xs ++ x ∷ []))
    × (u.last_s ≡ x)
    × IsChain (xs ++ x ∷ [])
    × ((e : ℕ) → 0 < e → u.next2stop e ≡ (if e == x then x else after (xs ++ x ∷ []) e))

first_of-end : (xs : List ℕ) (x : ℕ) → IsChain (xs ++ x ∷ []) → 0 < first_of (xs ++ x ∷ [])
unfolding first_of
first_of-end [] x c = c.1
first_of-end (a ∷ xs) x c = c.1

mem-end : (xs : List ℕ) (a x : ℕ) → mem a (xs ++ x ∷ []) ≡ false → a ≢ x
mem-end [] a x h = ground arith
mem-end (b ∷ xs) a x h = ground (arith, mem-end xs a x)

del_s-Looped :
    (u : Update) (a : ℕ) (xs : List ℕ) (x : ℕ) → Looped u (a ∷ xs) x → Looped (del_s u) xs x
unfolding del_s first_of
del_s-Looped u a xs x (f, l, (m, p, c), n) =
    let follows = after-link a (xs ++ x ∷ []) a in
    let ne = mem-end xs a x m in
    let pos = first_of-end xs x c in
    (
      ground (arith, n a p, follows, ne, pos),
      ground (arith, n a p, follows, ne, pos),
      c,
      λ e q. ground (arith, n e q, after-link a (xs ++ x ∷ []) e, after-mem (xs ++ x ∷ []) e, ne),
    )

taken-Looped :
    (u : Update) (xs : List ℕ) (x : ℕ) → Looped u xs x → Stops (taken (suc (length xs)) u) (x ∷ [])
unfolding del_s after first_of last_of
taken-Looped u [] x (f, l, (m, p, c), n) =
    (ground (arith, n x p), ground (arith, n x p), (m, p, c), λ e q. ground (arith, n e q, n x p))
taken-Looped u (a ∷ xs) x h = taken-Looped (del_s u) xs x (del_s-Looped u a xs x h)

last-pos : (xs : List ℕ) (x : ℕ) → IsChain (xs ++ x ∷ []) → 0 < x
last-pos [] x c = c.1
last-pos (a ∷ xs) x (m, p, c) = last-pos xs x c

add_stopped-Looped :
    (u : Update) (xs : List ℕ) (x status : ℕ)
    → Stops u (xs ++ x ∷ [])
    → Looped (add_stopped u x status) xs x
unfolding add_stopped
add_stopped-Looped u xs x status (f, l, c, n) =
    let p = last-pos xs x c in
    let ends = l ∙ last_of-append xs x in
    let free = n x p ∙ after-last_of (xs ++ x ∷ []) x c (sym (last_of-append xs x)) in
    (ground arith, ground arith, c, λ e q. ground (arith, n e q))

-- The last one in the list of the downloads whose thread has ended has no successor, which is also
-- the mark of a download that is not in the list. Added again, whatever stands in front of it, it
-- becomes its own successor, and after as many removals as there are downloads in the list it is again
-- the only one in it.
pub add_stopped-last :
    (u : Update) (xs : List ℕ) (x status : ℕ)
    → Stops u (xs ++ x ∷ [])
    → (u.next2stop x ≡ 0)
      × ((add_stopped u x status).next2stop x ≡ x)
      × Stops (taken (length (xs ++ x ∷ [])) (add_stopped u x status)) (x ∷ [])
add_stopped-last u xs x status h =
    let counted : length (xs ++ x ∷ []) ≡ suc (length xs) =
      omega (arith, length-append xs (x ∷ [])) in
    let again = add_stopped-Looped u xs x status h in
    let p = last-pos xs x h.2 in
    let (f, l, c, n) = h in
    let (f', l', c', n') = again in
    (
      n x p ∙ after-last_of (xs ++ x ∷ []) x c (sym (last_of-append xs x)),
      ground (arith, n' x p),
      rw counted (taken-Looped (add_stopped u x status) xs x again),
    )
