-- ===== src/Update/Chain.antt =====
-- The neighbours of a download in a list, 0 where there is none.
use d4x.Prelude.{
  ℕ, ◌<◌, ◌≢◌, Bool, true, false, ◌&&◌, ◌||◌, not, List, [], ◌∷◌, ◌++◌, ◌==◌, if◌then◌else◌, ◌≡◌,
  refl, arith, sym, if_intro,
}
use mathlib.Core.Path.{subst}

unfoldable pub after : List ℕ → ℕ → ℕ
after [] d = 0
after (a ∷ []) d = 0
after (a ∷ b ∷ rest) d = if d == a then b else after (b ∷ rest) d

unfoldable pub before : List ℕ → ℕ → ℕ
before [] d = 0
before (a ∷ []) d = 0
before (a ∷ b ∷ rest) d = if d == b then a else before (b ∷ rest) d

unfoldable pub first_of : List ℕ → ℕ
first_of [] = 0
first_of (a ∷ rest) = a

unfoldable pub last_of : List ℕ → ℕ
last_of [] = 0
last_of (a ∷ []) = a
last_of (a ∷ b ∷ rest) = last_of (b ∷ rest)

abbrev pub mem : ℕ → List ℕ → Bool
mem d [] = false
mem d (a ∷ rest) = (d == a) || mem d rest

unfoldable pub without : ℕ → List ℕ → List ℕ
without d [] = []
without d (a ∷ rest) = let more = without d rest in if a == d then rest else a ∷ more

-- No download twice, and no NULL.
abbrev pub IsChain : List ℕ → Type 0
IsChain [] = Unit
IsChain (a ∷ rest) = (mem a rest ≡ false) × (0 < a) × IsChain rest

pub after-mem : (xs : List ℕ) (d : ℕ) → mem d xs ≡ false → (after xs d ≡ 0) × (before xs d ≡ 0)
unfolding after before
after-mem [] d h = (refl, refl)
after-mem (a ∷ []) d h = (refl, refl)
after-mem (a ∷ b ∷ rest) d h = ground (arith, after-mem (b ∷ rest) d)

pub first_of-mem : (xs : List ℕ) (d : ℕ) → 0 < d → mem d xs ≡ false → (first_of xs == d) ≡ false
unfolding first_of
first_of-mem [] d p h = ground arith
first_of-mem (a ∷ rest) d p h = ground arith

pub last_of-pos : (a : ℕ) (xs : List ℕ) → IsChain (a ∷ xs) → 0 < last_of (a ∷ xs)
unfolding last_of
last_of-pos a [] c = c.1
last_of-pos a (b ∷ xs) (m, p, c) = last_of-pos b xs c

-- In a chain a member other than the first has one before it.
pub before-pos :
    (a : ℕ) (xs : List ℕ) (d : ℕ) → IsChain (a ∷ xs) → mem d xs ≡ true → 0 < before (a ∷ xs) d
unfolding before
before-pos a [] d c h = cc
before-pos a (b ∷ xs) d (m, p, c) h = ground (arith, before-pos b xs d c)

-- And a member other than the last has one after it.
pub after-pos :
    (xs : List ℕ) (d : ℕ) → IsChain xs → mem d xs ≡ true → d ≢ last_of xs → 0 < after xs d
unfolding after last_of
after-pos [] d c h n = cc
after-pos (a ∷ []) d c h n = ground arith
after-pos (a ∷ b ∷ xs) d (m, p, c) h n = ground (arith, after-pos (b ∷ xs) d c)

pub mem-last_of : (a : ℕ) (xs : List ℕ) → mem (last_of (a ∷ xs)) (a ∷ xs) ≡ true
unfolding last_of
mem-last_of a [] = ground arith
mem-last_of a (b ∷ xs) = ground (arith, mem-last_of b xs)

pub last_of-ne : (a b : ℕ) (xs : List ℕ) → mem a (b ∷ xs) ≡ false → a ≢ last_of (b ∷ xs)
last_of-ne a b xs m e = cc (subst (λ x. mem x (b ∷ xs) ≡ true) (sym e) (mem-last_of b xs))

pub after-append :
    (xs : List ℕ) (d e : ℕ)
    → IsChain xs
    → 0 < d
    → 0 < e
    → mem d xs ≡ false
    → after (xs ++ d ∷ []) e ≡ (if e == last_of xs then d else after xs e)
unfolding after last_of
after-append [] d e c p q h = ground arith
after-append (a ∷ []) d e c p q h = ground arith
after-append (a ∷ b ∷ xs) d e (m, r, c) p q h =
    ground (arith, after-append (b ∷ xs) d e c p q, last_of-ne a b xs m)

pub before-append :
    (xs : List ℕ) (d e : ℕ)
    → mem d xs ≡ false
    → before (xs ++ d ∷ []) e ≡ (if e == d then last_of xs else before xs e)
unfolding before last_of
before-append [] d e h = ground arith
before-append (a ∷ []) d e h = ground arith
before-append (a ∷ b ∷ xs) d e h = ground (arith, before-append (b ∷ xs) d e)

pub mem-without :
    (xs : List ℕ) (d e : ℕ) → IsChain xs → mem e (without d xs) ≡ (mem e xs && not (e == d))
unfolding without
mem-without [] d e c = refl
mem-without (a ∷ xs) d e (m, p, c) = ground (arith, mem-without xs d e c)

pub without-IsChain : (xs : List ℕ) (d : ℕ) → IsChain xs → IsChain (without d xs)
unfolding without
without-IsChain [] d c = tt
without-IsChain (a ∷ xs) d (m, p, c) =
    if_intro IsChain (a == d) (λ _. c)
      (λ _. (ground (arith, mem-without xs d a c), p, without-IsChain xs d c))

pub last_of-append : (xs : List ℕ) (d : ℕ) → last_of (xs ++ d ∷ []) ≡ d
unfolding last_of
last_of-append [] d = refl
last_of-append (a ∷ []) d = refl
last_of-append (a ∷ b ∷ xs) d = last_of-append (b ∷ xs) d

pub first_of-append :
    (xs : List ℕ) (d : ℕ)
    → IsChain xs
    → first_of (xs ++ d ∷ []) ≡ (if last_of xs == 0 then d else first_of xs)
unfolding first_of last_of
first_of-append [] d c = refl
first_of-append (a ∷ xs) d c = ground (arith, last_of-pos a xs c)

mem-append : (xs : List ℕ) (d e : ℕ) → mem e (xs ++ d ∷ []) ≡ (mem e xs || (e == d))
mem-append [] d e = ground arith
mem-append (a ∷ xs) d e = ground (arith, mem-append xs d e)

pub append-IsChain :
    (xs : List ℕ) (d : ℕ) → IsChain xs → 0 < d → mem d xs ≡ false → IsChain (xs ++ d ∷ [])
append-IsChain [] d c p h = (refl, p, tt)
append-IsChain (a ∷ xs) d (m, q, c) p h =
    (ground (arith, mem-append xs d a), q, append-IsChain xs d c p (ground arith))

pub after-last_of : (xs : List ℕ) (d : ℕ) → IsChain xs → d ≡ last_of xs → after xs d ≡ 0
unfolding after last_of
after-last_of [] d c h = refl
after-last_of (a ∷ []) d c h = refl
after-last_of (a ∷ b ∷ xs) d (m, q, c) h =
    ground (arith, after-last_of (b ∷ xs) d c, last_of-ne a b xs m)

pub without-absent : (xs : List ℕ) (d : ℕ) → mem d xs ≡ false → without d xs ≡ xs
unfolding without
without-absent [] d h = refl
without-absent (a ∷ xs) d h = ground (arith, without-absent xs d)

pub zero-absent : (xs : List ℕ) → IsChain xs → mem 0 xs ≡ false
zero-absent [] c = refl
zero-absent (a ∷ xs) (m, q, c) = ground (arith, zero-absent xs c)
