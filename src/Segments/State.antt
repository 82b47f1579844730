-- ===== src/Segments/State.antt =====
-- What tSegmentator::insert and ::complete do to the object.
use d4x.Prelude.{
  ℕ, ◌+◌, ◌≤◌, ◌<◌, ◌≡◌, refl, sym, ap, ◌∙◌, inl, inr, true, false, ◌&&◌, ◌||◌, List, [], ◌∷◌, ltb,
  leb, word, add64, arith, Bool-cases,
}
use d4x.Segments.{
  Segment, walk, Segmentator, autosave, place, insert, last, complete, finish, one_segment,
}
use d4x.Segments.Cover.{Above, covers, length_sum, walk-Above, walk-covers, walk-length_sum}
use d4x.Segments.Canonical.{walk_comm}

-- The chain is in order with a gap between any two nodes, and `total` is what the nodes hold.
pub record IsValid (s : Segmentator) : Type 0 where
  pub ordered : Above 0 s.chain
  pub counted : s.total ≡ length_sum s.chain

autosave-chain : (s : Segmentator) → ((autosave s).chain ≡ s.chain) × ((autosave s).total ≡ s.total)
unfolding autosave
autosave-chain s = ground arith

-- The empty chain needs no walk: what `place` does there, the walk would do as well.
place-chain : (s : Segmentator) (b e : ℕ) → (place s b e).0.chain ≡ (walk s.chain b e).chain
unfolding place walk
place-chain s b e = ground arith

place-total :
    (s : Segmentator) (b e : ℕ)
    → IsValid s
    → b < e
    → e + 1 < word
    → (place s b e).0.total ≡ add64 s.total (walk s.chain b e).added
unfolding place walk
place-total s b e v p q = ground arith

pub insert-chain :
    (s : Segmentator) (b e : ℕ) → b < e → (insert s b e).0.chain ≡ (walk s.chain b e).chain
unfolding insert
insert-chain s b e h = ground (arith, autosave-chain (place s b e).0, place-chain s b e)

insert-total :
    (s : Segmentator) (b e : ℕ)
    → IsValid s
    → b < e
    → e + 1 < word
    → (insert s b e).0.total ≡ add64 s.total (walk s.chain b e).added
unfolding insert
insert-total s b e v h q = ground (arith, autosave-chain (place s b e).0, place-total s b e v h q)

insert_empty_zone : (s : Segmentator) (b e : ℕ) → e ≤ b → insert s b e ≡ (s, false)
unfolding insert
insert_empty_zone s b e h = ground arith

-- After an insertion into a valid object, whatever its zone if it ends below the last offset but
-- one, the nodes are in order, no two of them touch or overlap, and `total` is the number of offsets that they hold.
pub insert-IsValid :
    (s : Segmentator) (b e : ℕ) → IsValid s → e + 1 < word → IsValid (insert s b e).0
insert-IsValid s b e v q = elim (Bool-cases (ltb b e)) [
  | inl h ↦
      let p : b < e = ground arith in
      record {
        ordered = rw (insert-chain s b e p) (walk-Above s.chain 0 b e v.ordered (omega arith) p q);
        counted = rw (
          insert-chain s b e p,
          insert-total s b e v p q,
          v.counted,
          walk-length_sum s.chain 0 b e v.ordered (omega arith) p q,
        );
      }
  | inr h ↦ rw (insert_empty_zone s b e (ground arith)) v
]

-- After an insertion an offset is covered, both ends of a node counted, if it was so before or if it lies in
-- the zone that is inserted, and only then; an empty zone adds nothing.
pub insert-covers :
    (s : Segmentator) (b e x : ℕ)
    → IsValid s
    → e + 1 < word
    → covers (insert s b e).0.chain x ≡ (covers s.chain x || (ltb b e && (leb b x && leb x e)))
insert-covers s b e x v q = elim (Bool-cases (ltb b e)) [
  | inl h ↦
      let p : b < e = ground arith in
      rw (insert-chain s b e p, h) (walk-covers s.chain 0 b e x v.ordered p q)
  | inr h ↦ rw (insert_empty_zone s b e (ground arith), h) (ground arith)
]

-- Two zones that are not empty can be inserted in either order: the chain and `total` are the same.
pub insert_comm :
    (s : Segmentator) (b e b' e' : ℕ)
    → IsValid s
    → b < e
    → e + 1 < word
    → b' < e'
    → e' + 1 < word
    → let one = (insert (insert s b e).0 b' e').0 in
      let two = (insert (insert s b' e').0 b e).0 in
      (one.chain ≡ two.chain) × (one.total ≡ two.total)
insert_comm s b e b' e' v p q p' q' =
    let same =
      insert-chain (insert s b e).0 b' e' p'
      ∙ ap (λ l. (walk l b' e').chain) (insert-chain s b e p)
      ∙ walk_comm s.chain b e b' e' v.ordered p q p' q'
      ∙ ap (λ l. (walk l b e).chain) (sym (insert-chain s b' e' p'))
      ∙ sym (insert-chain (insert s b' e').0 b e p) in
    let one = insert-IsValid (insert s b e).0 b' e' (insert-IsValid s b e v q) q' in
    let two = insert-IsValid (insert s b' e').0 b e (insert-IsValid s b' e' v q') q in
    (same, one.counted ∙ ap length_sum same ∙ sym two.counted)

last-ge :
    (cur : Segment) (rest : List Segment) (lo : ℕ)
    → Above lo (cur ∷ rest)
    → (cur.begin < (last cur rest).end) × ((last cur rest).end + 1 < word)
unfolding last
last-ge cur [] lo (p, q, r, a) = (q, r)
last-ge cur (next ∷ rest) lo (p, q, r, a) = ground (arith, last-ge next rest (cur.end + 2) a)

last-covers :
    (cur : Segment) (rest : List Segment) (lo x : ℕ)
    → Above lo (cur ∷ rest)
    → covers (cur ∷ rest) x ≡ true
    → (cur.begin ≤ x) × (x ≤ (last cur rest).end)
unfolding last
last-covers cur [] lo x (p, q, r, a) h = ground arith
last-covers cur (next ∷ rest) lo x (p, q, r, a) h =
    ground (arith, last-covers next rest (cur.end + 2) x a, last-ge next rest (cur.end + 2) a)

finish_lem :
    (s : Segmentator) (l : List Segment) (x : ℕ)
    → IsValid s
    → s.chain ≡ l
    → Above 0 l
    → IsValid (finish s l)
      × ((finish s l).file ≡ [])
      × (one_segment (finish s l) ≡ true)
      × (covers s.chain x ≡ true → covers (finish s l).chain x ≡ true)
unfolding finish one_segment
finish_lem s [] x v e a =
    (record { ordered = v.ordered; counted = v.counted }, refl, ground arith, λ h. h)
finish_lem s (cur ∷ rest) x v e a =
    let (p, q) = last-ge cur rest 0 a in
    (
      record { ordered = omega arith; counted = omega arith },
      refl,
      refl,
      λ h. ground (arith, last-covers cur rest 0 x a (ap (λ l. covers l x) (sym e) ∙ h)),
    )

-- Completing a valid object leaves it valid and its file empty, with at most one segment; an offset
-- that was covered still is.
pub complete_lem :
    (s : Segmentator) (x : ℕ)
    → IsValid s
    → IsValid (complete s)
      × ((complete s).file ≡ [])
      × (one_segment (complete s) ≡ true)
      × (covers s.chain x ≡ true → covers (complete s).chain x ≡ true)
unfolding complete one_segment
complete_lem s x v = finish_lem s s.chain x v refl v.ordered
