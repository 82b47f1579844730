-- ===== src/Update/Removal.antt =====
-- What becomes of neighbours when a download leaves a list, by the links at its ends.
use d4x.Prelude.{
  ℕ, ◌<◌, ◌≢◌, true, false, List, [], ◌∷◌, ◌==◌, if◌then◌else◌, ◌≡◌, refl, arith, sym, if_intro,
}
use mathlib.Core.Path.{subst}
use d4x.Update.Chain.{
  after, before, first_of, last_of, mem, without, IsChain, after-mem, first_of-mem, last_of-pos,
  before-pos, mem-last_of, last_of-ne, without-IsChain,
}

pub after-link :
    (a : ℕ) (ys : List ℕ) (e : ℕ) → after (a ∷ ys) e ≡ (if e == a then first_of ys else after ys e)
unfolding after first_of
after-link a [] e = ground arith
after-link a (b ∷ ys) e = refl

pub before-link :
    (a : ℕ) (ys : List ℕ) (e : ℕ)
    → 0 < e
    → before (a ∷ ys) e ≡ (if e == first_of ys then a else before ys e)
unfolding before first_of
before-link a [] e p = ground arith
before-link a (b ∷ ys) e p = refl

pub first_of-without :
    (ys : List ℕ) (d : ℕ)
    → first_of (without d ys) ≡ (if d == first_of ys then after ys d else first_of ys)
unfolding first_of without
first_of-without [] d = ground (arith, after-mem [] d refl)
first_of-without (b ∷ ys) d = ground (arith, after-link b ys d)

-- A number that is no member is next to none.
after-ne : (xs : List ℕ) (d a : ℕ) → 0 < a → mem a xs ≡ false → after xs d ≢ a
after-ne [] d a p h = ground (arith, after-mem [] d refl)
after-ne (b ∷ xs) d a p h =
    ground (arith, after-link b xs d, after-ne xs d a p, first_of-mem xs a p)

before-ne : (xs : List ℕ) (d a : ℕ) → 0 < d → 0 < a → mem a xs ≡ false → before xs d ≢ a
before-ne [] d a q p h = ground (arith, after-mem [] d refl)
before-ne (b ∷ xs) d a q p h = ground (arith, before-link b xs d q, before-ne xs d a q p)

pub before-first : (a : ℕ) (xs : List ℕ) → IsChain (a ∷ xs) → before (a ∷ xs) a ≡ 0
before-first a xs (m, p, c) =
    ground (arith, before-link a xs a p, first_of-mem xs a p m, after-mem xs a m)

pub without-cons :
    (a : ℕ) (xs : List ℕ) (d : ℕ) → without d (a ∷ xs) ≡ (if a == d then xs else a ∷ without d xs)
unfolding without
without-cons a xs d = refl

pub before-first_of : (xs : List ℕ) (e : ℕ) → IsChain xs → 0 < e → first_of xs ≡ e → before xs e ≡ 0
unfolding first_of
before-first_of [] e c p h = ground arith
before-first_of (a ∷ xs) e (m, q, c) p h = ground (arith, before-first a xs (m, q, c))

pub after-without :
    (xs : List ℕ) (d e : ℕ)
    → IsChain xs
    → 0 < d
    → 0 < e
    → e ≢ d
    → after (without d xs) e ≡ (if e == before xs d then after xs d else after xs e)
unfolding after before without
after-without [] d e c r p n = ground arith
after-without (a ∷ xs) d e (m, q, c) r p n =
    if_intro
      (λ w. after w e ≡ (if e == before (a ∷ xs) d then after (a ∷ xs) d else after (a ∷ xs) e))
      (a == d)
      (λ h.
        ground
          (arith, after-link a xs e, before-link a xs d r, after-mem xs a m, first_of-mem xs a q m))
      (λ h. ground (
        arith,
        after-without xs d e c r p n,
        after-link a (without d xs) e,
        after-link a xs e,
        after-link a xs d,
        before-link a xs d r,
        before-ne xs d a r q m,
        first_of-without xs d,
      ))

-- The first one comes after none.
after-ne_first : (xs : List ℕ) (d e : ℕ) → IsChain xs → 0 < e → after xs d ≡ e → first_of xs ≢ e
unfolding first_of
after-ne_first [] d e c p h = ground arith
after-ne_first (a ∷ xs) d e (m, q, c) p h =
    ground (arith, after-link a xs d, after-ne xs d a q m, first_of-mem xs a q m)

pub before-without :
    (xs : List ℕ) (d e : ℕ)
    → IsChain xs
    → 0 < d
    → 0 < e
    → e ≢ d
    → before (without d xs) e ≡ (if e == after xs d then before xs d else before xs e)
unfolding after before without
before-without [] d e c r p n = ground arith
before-without (a ∷ xs) d e (m, q, c) r p n =
    if_intro
      (λ w. before w e ≡ (if e == after (a ∷ xs) d then before (a ∷ xs) d else before (a ∷ xs) e))
      (a == d)
      (λ h. ground (
        arith,
        before-first_of xs e c p,
        after-link a xs d,
        before-link a xs e p,
        before-link a xs d r,
        after-mem xs a m,
        first_of-mem xs a q m,
      ))
      (λ h. ground (
        arith,
        before-without xs d e c r p n,
        before-link a (without d xs) e p,
        before-link a xs e p,
        after-link a xs d,
        before-link a xs d r,
        after-ne_first xs d e c p,
        first_of-without xs d,
      ))

-- The last one, where the rest of the list may be empty.
pub last_of-link :
    (a : ℕ) (ys : List ℕ)
    → IsChain ys
    → last_of (a ∷ ys) ≡ (if last_of ys == 0 then a else last_of ys)
unfolding last_of
last_of-link a [] c = refl
last_of-link a (b ∷ ys) c = ground (arith, last_of-pos b ys c)

last_of-only :
    (xs : List ℕ) (d : ℕ) → IsChain xs → 0 < d → d ≡ last_of xs → before xs d ≡ 0 → first_of xs ≡ d
unfolding first_of last_of
last_of-only [] d c p h z = ground arith
last_of-only (a ∷ xs) d c p h z =
    ground
      (arith, before-pos a xs d c, subst (λ x. mem x (a ∷ xs) ≡ true) (sym h) (mem-last_of a xs))

last_of-absent : (xs : List ℕ) (a : ℕ) → 0 < a → mem a xs ≡ false → last_of xs ≢ a
unfolding last_of
last_of-absent [] a p m e = ground arith
last_of-absent (b ∷ xs) a p m e = last_of-ne a b xs m (sym e)

pub last_of-without :
    (xs : List ℕ) (d : ℕ)
    → IsChain xs
    → 0 < d
    → last_of (without d xs) ≡ (if d == last_of xs then before xs d else last_of xs)
unfolding last_of before without
last_of-without [] d c p = ground arith
last_of-without (a ∷ xs) d (m, q, c) p =
    if_intro
      (λ w. last_of w ≡ (if d == last_of (a ∷ xs) then before (a ∷ xs) d else last_of (a ∷ xs)))
      (a == d)
      (λ h.
        ground (arith, last_of-link a xs c, last_of-absent xs a q m, before-first a xs (m, q, c)))
      (λ h. ground (
        arith,
        before-first_of xs d c p,
        last_of-only xs d c p,
        last_of-without xs d c p,
        last_of-link a xs c,
        before-link a xs d p,
        last_of-link a (without d xs) (without-IsChain xs d c),
      ))
