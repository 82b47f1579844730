-- ===== src/Segments/Cover.antt =====
-- What `insert` does to the set of offsets that a chain covers, and to its shape and its length.
use d4x.Prelude.{
  ℕ, ◌+◌, ◌-◌, ◌≤◌, ◌<◌, ◌≡◌, refl, ap, ◌∙◌, inl, inr, Bool, false, ◌&&◌, ◌||◌, List, [], ◌∷◌, ltb,
  leb, if◌then◌else◌, word, add64, sub64, arith, Bool-cases, ltb→lt,
}
use d4x.Segments.{Segment, segment, Compacted, compact, merge, walk}

-- A chain in order from `lo` on, each node more than one before the next, each end below the
-- largest offset.
abbrev pub Above : ℕ → List Segment → Type 0
Above lo [] = lo ≤ word
Above lo (s ∷ rest) =
    (lo ≤ s.begin) × (s.begin < s.end) × (s.end + 1 < word) × Above (s.end + 2) rest

-- Does the chain cover the offset, both ends of a segment counted?
abbrev pub covers : List Segment → ℕ → Bool
covers [] x = false
covers (s ∷ rest) x = (leb s.begin x && leb x s.end) || covers rest x

abbrev pub length_sum : List Segment → ℕ
length_sum [] = 0
length_sum (s ∷ rest) = (s.end - s.begin) + length_sum rest

Above-le : (xs : List Segment) {lo lo' : ℕ} → lo' ≤ lo → Above lo xs → Above lo' xs
Above-le [] h a = omega arith
Above-le (s ∷ xs) h (p, q, r, a) = (omega arith, q, r, a)

compact-Above :
    (cur : Segment) (dec lo : ℕ) (rest : List Segment)
    → cur.begin < cur.end
    → cur.end + 1 < word
    → Above lo rest
    → (cur.begin ≡ (compact cur dec rest).cur.begin)
      × Above cur.begin ((compact cur dec rest).cur ∷ (compact cur dec rest).rest)
unfolding compact
compact-Above cur dec lo [] p q a = (refl, ground arith)
compact-Above cur dec lo (next ∷ rest) p q (n1, n2, n3, a) = ground (
  arith,
  compact-Above cur (add64 dec (sub64 next.end next.begin)) (next.end + 2) rest,
  compact-Above (segment cur.begin next.end) (add64 dec (sub64 next.end next.begin)) (next.end + 2)
      rest,
)

pub walk-Above :
    (xs : List Segment) (lo b e : ℕ)
    → Above lo xs
    → lo ≤ b
    → b < e
    → e + 1 < word
    → Above lo (walk xs b e).chain
unfolding walk merge
walk-Above [] lo b e a p q r = omega arith
walk-Above (cur ∷ rest) lo b e (c1, c2, c3, a) p q r = ground (
  arith,
  λ (h : cur.end + 2 ≤ b). walk-Above rest (cur.end + 2) b e a h q r,
  compact-Above
      (segment (if ltb b cur.begin then b else cur.begin) (if ltb cur.end e then e else cur.end))
      (sub64 cur.end cur.begin) (cur.end + 2) rest,
)

compact-covers :
    (cur : Segment) (dec lo : ℕ) (rest : List Segment) (x : ℕ)
    → cur.begin < cur.end
    → cur.end + 1 < word
    → cur.begin ≤ lo
    → Above lo rest
    → covers ((compact cur dec rest).cur ∷ (compact cur dec rest).rest) x ≡ covers (cur ∷ rest) x
unfolding compact
compact-covers cur dec lo [] x p q r a = refl
compact-covers cur dec lo (next ∷ rest) x p q r (n1, n2, n3, a) = ground (
  arith,
  compact-covers cur (add64 dec (sub64 next.end next.begin)) (next.end + 2) rest x,
  compact-covers (segment cur.begin next.end) (add64 dec (sub64 next.end next.begin)) (next.end + 2)
      rest x,
)

-- The segment that `merge` starts from.
abbrev pub widened : Segment → ℕ → ℕ → Segment
widened cur b e =
    segment (if ltb b cur.begin then b else cur.begin) (if ltb cur.end e then e else cur.end)

widened_range :
    (cur : Segment) (b e : ℕ)
    → cur.begin < cur.end
    → cur.end + 1 < word
    → b < e
    → e + 1 < word
    → ((widened cur b e).begin < (widened cur b e).end)
      × ((widened cur b e).end + 1 < word)
      × ((widened cur b e).begin ≤ cur.end + 2)
widened_range cur b e p q r s = ground arith

widened-covers :
    (cur : Segment) (b e x : ℕ)
    → b ≤ cur.end + 1
    → cur.begin ≤ e + 1
    → cur.begin < cur.end
    → b < e
    → (leb (widened cur b e).begin x && leb x (widened cur b e).end)
      ≡ ((leb cur.begin x && leb x cur.end) || (leb b x && leb x e))
widened-covers cur b e x h k p q = ground arith

merge-covers :
    (cur : Segment) (rest : List Segment) (b e x : ℕ)
    → Above cur.begin (cur ∷ rest)
    → b < e
    → e + 1 < word
    → b ≤ cur.end + 1
    → cur.begin ≤ e + 1
    → covers (merge cur rest b e).chain x ≡ (covers (cur ∷ rest) x || (leb b x && leb x e))
unfolding merge
merge-covers cur rest b e x (c1, c2, c3, a) q r h k =
    let (w1, w2, w3) = widened_range cur b e c2 c3 q r in
    compact-covers (widened cur b e) (sub64 cur.end cur.begin) (cur.end + 2) rest x w1 w2 w3 a
    ∙ ap (λ t. t || covers rest x) (widened-covers cur b e x h k c2 q)
    ∙ or_swap (leb cur.begin x && leb x cur.end) (leb b x && leb x e) (covers rest x)
  where
    or_swap : (s t u : Bool) → ((s || t) || u) ≡ ((s || u) || t)
    or_swap s t u = ground arith

pub walk-covers :
    (xs : List Segment) (lo b e x : ℕ)
    → Above lo xs
    → b < e
    → e + 1 < word
    → covers (walk xs b e).chain x ≡ (covers xs x || (leb b x && leb x e))
unfolding walk
walk-covers [] lo b e x a q r = ground arith
walk-covers (cur ∷ rest) lo b e x (c1, c2, c3, a) q r =
    elim (Bool-cases (ltb (add64 cur.end 1) b)) [
      | inl later ↦
          rw (later, walk-covers rest (cur.end + 2) b e x a q r)
            (or_assoc' (leb cur.begin x && leb x cur.end) (covers rest x) (leb b x && leb x e))
      | inr here ↦ rw here (elim (Bool-cases (ltb (add64 e 1) cur.begin)) [
        | inl before ↦ rw before (or_comm' (leb b x && leb x e) (covers (cur ∷ rest) x))
        | inr meets ↦
            rw meets (
              merge-covers cur rest b e x (omega arith, c2, c3, a) q r (ground arith)
                (ground arith))
      ])
    ]
  where
    or_assoc' : (s t u : Bool) → (s || (t || u)) ≡ ((s || t) || u)
    or_assoc' s t u = ground arith

    or_comm' : (s t : Bool) → (s || t) ≡ (t || s)
    or_comm' s t = ground arith

length_sum-le : (xs : List Segment) (lo : ℕ) → Above lo xs → lo + length_sum xs ≤ word
length_sum-le [] lo a = omega arith
length_sum-le (s ∷ xs) lo (p, q, r, a) = omega (arith, length_sum-le xs (s.end + 2) a)

compact-length_sum :
    (cur : Segment) (dec lo : ℕ) (rest : List Segment)
    → Above lo rest
    → dec + length_sum rest < word
    → (compact cur dec rest).dec + length_sum (compact cur dec rest).rest ≡ dec + length_sum rest
unfolding compact
compact-length_sum cur dec lo [] a h = refl
compact-length_sum cur dec lo (next ∷ rest) (n1, n2, n3, a) h = ground (
  arith,
  compact-length_sum cur (add64 dec (sub64 next.end next.begin)) (next.end + 2) rest a,
  compact-length_sum (segment cur.begin next.end) (add64 dec (sub64 next.end next.begin))
      (next.end + 2) rest a,
)

-- The books of `merge`, for whatever the loop leaves.
merge_sum :
    (c : Compacted) (old sum : ℕ) {lo : ℕ}
    → Above lo (c.cur ∷ c.rest)
    → old + sum < word
    → c.dec + length_sum c.rest ≡ old + sum
    → length_sum (c.cur ∷ c.rest) ≡ add64 (old + sum) (sub64 (sub64 c.cur.end c.cur.begin) c.dec)
merge_sum c old sum (p, q, r, a) h k = omega (arith, length_sum-le c.rest (c.cur.end + 2) a)

merge-length_sum :
    (cur : Segment) (rest : List Segment) (b e : ℕ)
    → Above cur.begin (cur ∷ rest)
    → b < e
    → e + 1 < word
    → length_sum (merge cur rest b e).chain
      ≡ add64 (length_sum (cur ∷ rest)) (merge cur rest b e).added
unfolding merge
merge-length_sum cur rest b e (c1, c2, c3, a) q r =
    let (w1, w2, w3) = widened_range cur b e c2 c3 q r in
    let d : sub64 cur.end cur.begin ≡ cur.end - cur.begin = omega arith in
    let l = length_sum-le rest (cur.end + 2) a in
    merge_sum (compact (widened cur b e) (sub64 cur.end cur.begin) rest) (cur.end - cur.begin)
      (length_sum rest)
      (compact-Above (widened cur b e) (sub64 cur.end cur.begin) (cur.end + 2) rest w1 w2 a).1
      (omega arith)
      (compact-length_sum (widened cur b e) (sub64 cur.end cur.begin) (cur.end + 2) rest a
          (omega arith)
        ∙ ap (λ t. t + length_sum rest) d)

pub walk-length_sum :
    (xs : List Segment) (lo b e : ℕ)
    → Above lo xs
    → lo ≤ b
    → b < e
    → e + 1 < word
    → length_sum (walk xs b e).chain ≡ add64 (length_sum xs) (walk xs b e).added
unfolding walk
walk-length_sum [] lo b e a p q r = omega arith
walk-length_sum (cur ∷ rest) lo b e (c1, c2, c3, a) p q r =
    elim (Bool-cases (ltb (add64 cur.end 1) b)) [
      | inl later ↦
          let h : cur.end + 2 ≤ b = ground arith in
          let n = length_sum-le _ _ (walk-Above rest (cur.end + 2) b e a h q r) in
          rw later (
            omega (
              arith,
              walk-length_sum rest (cur.end + 2) b e a h q r,
              n,
              length_sum-le rest (cur.end + 2) a,
            ))
      | inr here ↦ rw here (elim (Bool-cases (ltb (add64 e 1) cur.begin)) [
        | inl before ↦
            rw before (omega (arith, length_sum-le rest (cur.end + 2) a, ltb→lt _ _ before))
        | inr meets ↦ rw meets (merge-length_sum cur rest b e (omega arith, c2, c3, a) q r)
      ])
    ]
