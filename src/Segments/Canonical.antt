-- ===== src/Segments/Canonical.antt =====
-- A chain is determined by the offsets that it covers, so the order of insertions does not matter.
use d4x.Prelude.{
  ℕ, ◌+◌, ◌≤◌, ◌<◌, ◌≡◌, refl, sym, ap, ◌∙◌, Bool, false, ◌&&◌, ◌||◌, List, [], ◌∷◌, leb, word,
  arith,
}
use d4x.Segments.{Segment, walk}
use d4x.Segments.Cover.{Above, covers, walk-Above, walk-covers}

pub covers_below : (xs : List Segment) (lo x : ℕ) → Above lo xs → x < lo → covers xs x ≡ false
covers_below [] lo x a h = refl
covers_below (s ∷ xs) lo x (p, q, r, a) h = ground (arith, covers_below xs (s.end + 2) x a)

abbrev SameCover : List Segment → List Segment → Type 0
SameCover xs ys = (x : ℕ) → covers xs x ≡ covers ys x

head_begin :
    (s t : Segment) (xs ys : List Segment) (lo : ℕ)
    → Above lo (s ∷ xs)
    → Above lo (t ∷ ys)
    → SameCover (s ∷ xs) (t ∷ ys)
    → t.begin ≤ s.begin
head_begin s t xs ys lo (p, q, r, a) (p', q', r', a') h =
    ground (arith, h s.begin, covers_below (t ∷ ys) t.begin s.begin)

head_end :
    (s t : Segment) (xs ys : List Segment) (lo : ℕ)
    → Above lo (s ∷ xs)
    → Above lo (t ∷ ys)
    → SameCover (s ∷ xs) (t ∷ ys)
    → s.begin ≡ t.begin
    → t.end ≤ s.end
head_end s t xs ys lo (p, q, r, a) (p', q', r', a') h e =
    ground (arith, h (s.end + 1), covers_below xs (s.end + 2) (s.end + 1) a)

tail_cover :
    (s t : Segment) (xs ys : List Segment) (lo : ℕ)
    → Above lo (s ∷ xs)
    → Above lo (t ∷ ys)
    → SameCover (s ∷ xs) (t ∷ ys)
    → s.begin ≡ t.begin
    → s.end ≡ t.end
    → SameCover xs ys
tail_cover s t xs ys lo (p, q, r, a) (p', q', r', a') h e e' x =
    ground (arith, h x, covers_below xs (s.end + 2) x a, covers_below ys (t.end + 2) x a')

-- Two chains in order that cover the same offsets are the same chain.
pub eq_of_covers :
    (xs ys : List Segment) (lo : ℕ) → Above lo xs → Above lo ys → SameCover xs ys → xs ≡ ys
eq_of_covers [] [] lo a b h = refl
eq_of_covers [] (t ∷ ys) lo a b h = ground (arith, h t.begin)
eq_of_covers (s ∷ xs) [] lo a b h = ground (arith, h s.begin)
eq_of_covers (s ∷ xs) (t ∷ ys) lo a b h =
    let e : s.begin ≡ t.begin =
      omega (arith, head_begin s t xs ys lo a b h, head_begin t s ys xs lo b a (λ x. sym (h x))) in
    let e' : s.end ≡ t.end =
      omega (
        arith,
        head_end s t xs ys lo a b h e,
        head_end t s ys xs lo b a (λ x. sym (h x)) (sym e),
      ) in
    let u : s ≡ t = λ i. record { begin = e i; end = e' i } in
    let v : xs ≡ ys =
      eq_of_covers xs ys (s.end + 2) a.3 (rw e' b.3) (tail_cover s t xs ys lo a b h e e') in
    cc

walk-walk-covers :
    (xs : List Segment) (b e b' e' x : ℕ)
    → Above 0 xs
    → b < e
    → e + 1 < word
    → b' < e'
    → e' + 1 < word
    → covers (walk (walk xs b e).chain b' e').chain x
      ≡ ((covers xs x || (leb b x && leb x e)) || (leb b' x && leb x e'))
walk-walk-covers xs b e b' e' x a p q p' q' =
    walk-covers _ 0 b' e' x (walk-Above xs 0 b e a (omega arith) p q) p' q'
    ∙ ap (λ t. t || (leb b' x && leb x e')) (walk-covers xs 0 b e x a p q)

pub walk_comm :
    (xs : List Segment) (b e b' e' : ℕ)
    → Above 0 xs
    → b < e
    → e + 1 < word
    → b' < e'
    → e' + 1 < word
    → (walk (walk xs b e).chain b' e').chain ≡ (walk (walk xs b' e').chain b e).chain
walk_comm xs b e b' e' a p q p' q' =
    eq_of_covers _ _ 0
      (walk-Above _ 0 b' e' (walk-Above xs 0 b e a (omega arith) p q) (omega arith) p' q')
      (walk-Above _ 0 b e (walk-Above xs 0 b' e' a (omega arith) p' q') (omega arith) p q)
      (λ x.
        walk-walk-covers xs b e b' e' x a p q p' q'
        ∙ swap (covers xs x) (leb b x && leb x e) (leb b' x && leb x e')
        ∙ sym (walk-walk-covers xs b' e' b e x a p' q' p q))
  where
    swap : (s t u : Bool) → ((s || t) || u) ≡ ((s || u) || t)
    swap s t u = ground arith
