-- ===== src/Paths/Loop.antt =====
-- main/path.cc: when the loop of Path::normalize over "/../" ends.
use d4x.Prelude.{
  ℕ, zero, suc, ◌+◌, ◌-◌, ◌≤◌, ◌<◌, Bool, true, false, Option, none, some, [], ◌∷◌, ◌++◌, ◌==◌, ltb,
  if◌then◌else◌, Bytes, take, drop, length, length-append, codes, ◌≡◌, refl, arith, ap, ◌∙◌, ◌⊎◌,
  inl, inr, if_intro,
}
use d4x.Paths.{
  begins_up, further, find_up, or_here, rfind_slash, slash_before, cut, up, up_loop, trim,
  normalize,
}

-- The last slash of a string with "/../" at its beginning is the fourth byte or behind it.
late_slash :
    (r : Option ℕ)
    → (k : ℕ) × (or_here true (or_here false (or_here false (or_here true r)))
        ≡ some (suc (suc (suc k))))
unfolding or_here
late_slash none = (0, refl)
late_slash (some k) = (suc k, refl)

if_behind :
    (b : Bool) (pre xs ys : Bytes)
    → (if b then pre ++ xs else pre ++ ys) ≡ pre ++ (if b then xs else ys)
if_behind true pre xs ys = refl
if_behind false pre xs ys = refl

cut_stays :
    (rest : Bytes) (k : ℕ)
    → (rest' : Bytes) × (cut (codes "/../" ++ rest) 0 (some (suc (suc (suc k))))
        ≡ codes "/../" ++ rest')
unfolding cut
cut_stays rest zero = (rest, refl)
cut_stays rest (suc k) = (
  _,
  if_behind (ltb 4 (suc (suc (suc (suc k))))) (codes "/../") (take k rest ++ b'/' ∷ [])
      (take k rest ++ b'/' ∷ rest),
)

up_stays : (rest : Bytes) → (rest' : Bytes) × (up (codes "/../" ++ rest) 0 ≡ codes "/../" ++ rest')
unfolding up slash_before rfind_slash
up_stays rest =
    let (k, e) = late_slash (rfind_slash rest) in
    let (rest', f) = cut_stays rest k in (rest', ap (cut (codes "/../" ++ rest) 0) e ∙ f)

loop_stays : (fuel : ℕ) (rest : Bytes) → up_loop fuel (codes "/../" ++ rest) ≡ none
unfolding up_loop find_up begins_up
loop_stays zero rest = refl
loop_stays (suc fuel) rest =
    let (rest', e) = up_stays rest in ap (up_loop fuel) e ∙ loop_stays fuel rest'

-- A path that begins with "/../" is never normalized: no number of rounds is enough.
pub normalize-up : (fuel : ℕ) (rest : Bytes) → normalize fuel (codes "/../" ++ rest) ≡ none
unfolding normalize trim
normalize-up fuel rest = ap trim (loop_stays fuel rest)

begins_up-length : (path : Bytes) → begins_up path ≡ true → 4 ≤ length path
unfolding begins_up
begins_up-length [] e = cc
begins_up-length (a ∷ []) e = cc
begins_up-length (a ∷ b ∷ []) e = cc
begins_up-length (a ∷ b ∷ c ∷ []) e = cc
begins_up-length (a ∷ b ∷ c ∷ d ∷ rest) e = omega arith

further-bound :
    (o : Option ℕ) (b : Bool) (n p : ℕ)
    → ((q : ℕ) → o ≡ some q → q + 4 ≤ n)
    → (b ≡ true → 4 ≤ suc n)
    → (if b then some 0 else further o) ≡ some p
    → p + 4 ≤ suc n
unfolding further
further-bound none b n p h k e = ground arith
further-bound (some q) b n p h k e = ground (arith, h q refl)

find_up-bound : (path : Bytes) (p : ℕ) → find_up path ≡ some p → p + 4 ≤ length path
unfolding find_up
find_up-bound [] p e = ground arith
find_up-bound (a ∷ rest) p e =
    further-bound (find_up rest) (begins_up (a ∷ rest)) (length rest) p (find_up-bound rest)
      (begins_up-length (a ∷ rest)) e

or_here-bound :
    (o : Option ℕ) (b : Bool) (n r : ℕ)
    → ((q : ℕ) → o ≡ some q → q < n)
    → or_here b o ≡ some r
    → r < suc n
unfolding or_here
or_here-bound none b n r h e = ground arith
or_here-bound (some q) b n r h e = ground (arith, h q refl)

rfind_slash-bound : (path : Bytes) (r : ℕ) → rfind_slash path ≡ some r → r < length path
unfolding rfind_slash
rfind_slash-bound [] r e = ground arith
rfind_slash-bound (a ∷ rest) r e =
    or_here-bound (rfind_slash rest) (a == b'/') (length rest) r (rfind_slash-bound rest) e

length-take : (n : ℕ) (path : Bytes) → length (take n path) ≤ n
length-take zero path = omega arith
length-take (suc n) [] = omega arith
length-take (suc n) (a ∷ path) = omega (arith, length-take n path)

length-drop : (n : ℕ) (path : Bytes) → length (drop n path) ≡ length path - n
length-drop zero path = omega arith
length-drop (suc n) [] = omega arith
length-drop (suc n) (a ∷ path) = omega (arith, length-drop n path)

-- Where "/../" is not found at the beginning, a round makes the path shorter.
cut-length :
    (path : Bytes) (p : ℕ) (o : Option ℕ)
    → suc p + 4 ≤ length path
    → ((r : ℕ) → o ≡ some r → r < suc p)
    → length (cut path (suc p) o) < length path
unfolding cut
cut-length path p none b h = omega (arith, length-drop (suc p + 4) path, b)
cut-length path p (some r) b h =
    let early = h r refl in
    if_intro (λ ys. length ys < length path) (ltb (suc p + 4) r) {x = take r path ++ b'/' ∷ []}
      {y = take r path ++ b'/' ∷ drop (suc p + 4) path} (λ c. absurd (ground arith))
      (λ c. omega (
        arith,
        early,
        b,
        length-take r path,
        length-drop (suc p + 4) path,
        length-append (take r path) (b'/' ∷ drop (suc p + 4) path),
      ))

suc_lem : (p : ℕ) → (suc p == 0) ≡ false
suc_lem p = ground arith

up-length :
    (path : Bytes) (p : ℕ) → find_up path ≡ some (suc p) → length (up path (suc p)) < length path
unfolding up slash_before
up-length path p e =
    rw (ap (λ b. if b then rfind_slash path else rfind_slash (take (suc p) path)) (suc_lem p)) (
      cut-length path p (rfind_slash (take (suc p) path)) (find_up-bound path (suc p) e)
        (λ r f. omega (arith, rfind_slash-bound (take (suc p) path) r f, length-take (suc p) path)))

-- The loop has an end, or it has none.
abbrev pub Settles : ℕ → Bytes → Type 0
Settles fuel path =
    ((done : Bytes) × (find_up done ≡ none) × ((more : ℕ) → up_loop (fuel + more) path ≡ some done))
    ⊎ ((rounds : ℕ) → up_loop rounds path ≡ none)

begins_up_of :
    (path : Bytes) → begins_up path ≡ true → (rest : Bytes) × (path ≡ codes "/../" ++ rest)
unfolding begins_up
begins_up_of [] e = absurd (ground arith)
begins_up_of (a ∷ []) e = absurd (ground arith)
begins_up_of (a ∷ b ∷ []) e = absurd (ground arith)
begins_up_of (a ∷ b ∷ c ∷ []) e = absurd (ground arith)
begins_up_of (a ∷ b ∷ c ∷ d ∷ rest) e = (rest, ground arith)

further-zero : (b : Bool) (o : Option ℕ) → (if b then some 0 else further o) ≡ some 0 → b ≡ true
unfolding further
further-zero true o e = refl
further-zero false none e = ground arith
further-zero false (some p) e = ground arith

found_first :
    (path : Bytes) → find_up path ≡ some 0 → (rest : Bytes) × (path ≡ codes "/../" ++ rest)
unfolding find_up
found_first [] e = absurd (ground arith)
found_first (a ∷ rest) e =
    begins_up_of (a ∷ rest) (further-zero (begins_up (a ∷ rest)) (find_up rest) e)

module _ (path : Bytes) where
  pub loop_done : (fuel : ℕ) → find_up path ≡ none → up_loop fuel path ≡ some path
  unfolding up_loop
  loop_done zero e = ap (λ o. elim o [ none ↦ some path | some p ↦ none ]) e
  loop_done (suc fuel) e =
      ap (λ o. elim o [ none ↦ some path | some p ↦ up_loop fuel (up path p) ]) e

  loop_goes :
      (fuel p : ℕ) → find_up path ≡ some p → up_loop (suc fuel) path ≡ up_loop fuel (up path p)
  unfolding up_loop
  loop_goes fuel p e = ap (λ o. elim o [ none ↦ some path | some p' ↦ up_loop fuel (up path p') ]) e

  loop_short : (p : ℕ) → find_up path ≡ some p → up_loop zero path ≡ none
  unfolding up_loop
  loop_short p e = ap (λ o. elim o [ none ↦ some path | some p' ↦ none ]) e

  never :
      (p : ℕ)
      → find_up path ≡ some p
      → ((rounds : ℕ) → up_loop rounds (up path p) ≡ none)
      → (rounds : ℕ) → up_loop rounds path ≡ none
  never p e h zero = loop_short p e
  never p e h (suc rounds) = loop_goes rounds p e ∙ h rounds

suc_add : (m n : ℕ) → suc m + n ≡ suc (m + n)
suc_add m n = omega arith

settles :
    (fuel : ℕ) (path : Bytes) (o : Option ℕ)
    → find_up path ≡ o
    → length path ≤ fuel
    → Settles fuel path
settles fuel path none e l = inl (path, e, λ more. loop_done path (fuel + more) e)
settles fuel path (some zero) e l =
    let (rest, f) = found_first path e in
    inr (λ rounds. ap (up_loop rounds) f ∙ loop_stays rounds rest)
settles zero path (some (suc p)) e l = absurd (omega (arith, find_up-bound path (suc p) e, l))
settles (suc fuel) path (some (suc p)) e l =
    elim (settles fuel (up path (suc p)) (find_up (up path (suc p))) refl
      (omega (arith, up-length path p e, l))) [
        | inl (done, f, h) ↦ inl (
          done,
          f,
          λ more.
              ap (λ n. up_loop n path) (suc_add fuel more)
              ∙ loop_goes path (fuel + more) (suc p) e
              ∙ h more,
        )
        | inr h ↦ inr (never path (suc p) e h)
      ]

-- As many rounds as a path has bytes decide about the loop of normalize over "/../": either it has then
-- ended, with the same string for any number of rounds from there on, in which "/../" is not found, or
-- it never ends.
pub up_loop-Settles : (path : Bytes) → Settles (length path) path
up_loop-Settles path = settles (length path) path (find_up path) refl (omega arith)
