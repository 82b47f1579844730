-- ===== src/Addresses/Find.antt =====
-- main/addr.cc: where a byte is found in a string that is put together.
use d4x.Prelude.{
  ℕ, suc, Bool, true, false, Option, none, some, [], ◌∷◌, ◌++◌, ◌==◌, if◌then◌else◌, Bytes, codes,
  take, drop, length, ◌≡◌, refl, arith, ap,
}
use d4x.Strings.{begin_string, same_first}
use d4x.Strings.Begin.{Begins, begins, Begins→same_first, begin_string_iff}
use d4x.Addresses.Reading.{find, rfind, find_scheme}

next_some :
    (o : Option ℕ) (k : ℕ)
    → o ≡ some k
    → elim o as (λ _. Option ℕ) [ none ↦ none | some p ↦ some (suc p) ] ≡ some (suc k)
next_some o k e = ap (λ o. elim o [ none ↦ none | some p ↦ some (suc p) ]) e

next_none :
    (o : Option ℕ)
    → elim o as (λ _. Option ℕ) [ none ↦ none | some p ↦ some (suc p) ] ≡ none
    → o ≡ none
next_none none e = refl
next_none (some p) e = ground arith

found : (b : Bool) (o : Option ℕ) → (if b then some 0 else o) ≡ none → (b ≡ false) × (o ≡ none)
found true o e = absurd (ground arith)
found false o e = (refl, e)

pub find-none :
    (c a : ℕ) (rest : Bytes) → find c (a ∷ rest) ≡ none → ((a == c) ≡ false) × (find c rest ≡ none)
unfolding find
find-none c a rest e = let (b, f) = found (a == c) _ e in (b, next_none (find c rest) f)

-- The first byte behind a part without it.
pub find-append :
    (c : ℕ) (xs ys : Bytes) → find c xs ≡ none → find c (xs ++ c ∷ ys) ≡ some (length xs)
unfolding find
find-append c [] ys e = ground arith
find-append c (a ∷ xs) ys e =
    let (b, f) = find-none c a xs e in rw b (next_some _ _ (find-append c xs ys f))

pub absent-append :
    (c : ℕ) (xs ys : Bytes) → find c xs ≡ none → find c ys ≡ none → find c (xs ++ ys) ≡ none
unfolding find
absent-append c [] ys e f = f
absent-append c (a ∷ xs) ys e f =
    let (b, g) = find-none c a xs e in
    rw b (
      ap (λ o. elim o as (λ _. Option ℕ) [ none ↦ none | some p ↦ some (suc p) ])
        (absent-append c xs ys g f))

pub rfind-absent : (c : ℕ) (xs : Bytes) → find c xs ≡ none → rfind c xs ≡ none
unfolding rfind
rfind-absent c [] e = refl
rfind-absent c (a ∷ xs) e = let (b, f) = find-none c a xs e in rw (rfind-absent c xs f, b) refl

pub rfind-append :
    (c : ℕ) (xs ys : Bytes) → find c ys ≡ none → rfind c (xs ++ c ∷ ys) ≡ some (length xs)
unfolding rfind
rfind-append c [] ys e = rw (rfind-absent c ys e) (ground arith)
rfind-append c (a ∷ xs) ys e = rw (rfind-append c xs ys e) refl

pub take-length : (xs ys : Bytes) → take (length xs) (xs ++ ys) ≡ xs
take-length [] ys = refl
take-length (a ∷ xs) ys = ap (λ t. a ∷ t) (take-length xs ys)

pub drop-length : (xs ys : Bytes) → drop (length xs) (xs ++ ys) ≡ ys
drop-length [] ys = refl
drop-length (a ∷ xs) ys = drop-length xs ys

pub drop-behind : (xs : Bytes) (c : ℕ) (ys : Bytes) → drop (suc (length xs)) (xs ++ c ∷ ys) ≡ ys
drop-behind [] c ys = refl
drop-behind (a ∷ xs) c ys = drop-behind xs c ys

first_same : (a : ℕ) (xs : Bytes) → Begins (a ∷ xs) (codes "://") → a ≡ b':'
unfolding same_first
first_same a xs h = let (same, le) = Begins→same_first (a ∷ xs) (codes "://") h in ground arith

false_of : (b : Bool) → (b ≡ true → (x y : ℕ) × (x ≡ y) × ((x == y) ≡ false)) → b ≡ false
false_of true h = let (x, y, e, f) = h refl in absurd (ground arith)
false_of false h = refl

begin_string-other :
    (a : ℕ) (xs : Bytes) → (a == b':') ≡ false → begin_string (a ∷ xs) (codes "://") ≡ false
begin_string-other a xs n =
    false_of (begin_string (a ∷ xs) (codes "://"))
      (λ e. (a, b':', first_same a xs ((begin_string_iff (a ∷ xs) b':' (codes "//")).0 e), n))

-- The scheme ends at the first colon with two slashes behind it.
pub find_scheme-append :
    (name rest : Bytes)
    → find b':' name ≡ none
    → find_scheme (name ++ (codes "://" ++ rest)) ≡ some (length name)
unfolding find_scheme
find_scheme-append [] rest e =
    rw ((begin_string_iff (codes "://" ++ rest) b':' (codes "//")).1 (begins (codes "://") rest))
      refl
find_scheme-append (a ∷ name) rest e =
    let (b, f) = find-none b':' a name e in
    rw (begin_string-other a (name ++ (codes "://" ++ rest)) b)
      (next_some _ _ (find_scheme-append name rest f))
