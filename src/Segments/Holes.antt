-- ===== src/Segments/Holes.antt =====
-- tSegmentator::to_holes: between which offsets the file is still missing.
use d4x.Prelude.{
  ℕ, ◌+◌, ◌≤◌, ◌<◌, ◌≡◌, refl, sym, ap, ◌∙◌, Bool, true, false, not, ◌&&◌, ◌||◌, List, [], ◌∷◌, ltb,
  leb, arith, length, All, word,
}
use d4x.Segments.{Segment, segment, Segmentator, hole_loop, to_holes, insert}
use d4x.Segments.Cover.{Above, covers}
use d4x.Segments.Canonical.{covers_below}
use d4x.Segments.State.{IsValid, insert-IsValid, insert-covers}

-- Is the offset in one of the segments, the end of a segment not counted?
abbrev pub holds : List Segment → ℕ → Bool
holds [] x = false
holds (s ∷ rest) x = (leb s.begin x && ltb x s.end) || holds rest x

abbrev pub Within : ℕ → List Segment → Type 0
Within size = All (λ s. s.end ≤ size)

holds_below : (xs : List Segment) (lo x : ℕ) → Above lo xs → x < lo → holds xs x ≡ false
holds_below [] lo x a h = refl
holds_below (s ∷ xs) lo x (p, q, r, a) h = ground (arith, holds_below xs (s.end + 2) x a)

hole_loop-begin :
    (xs : List Segment) (lo size x : ℕ)
    → Above lo xs
    → Within size xs
    → x < lo
    → holds (hole_loop xs size) x ≡ false
unfolding hole_loop
hole_loop-begin [] lo size x a w h = refl
hole_loop-begin (cur ∷ rest) lo size x (p, q, r, a) (w, ws) h =
    ground (arith, hole_loop-begin rest (cur.end + 2) size x a ws)

hole_loop_step :
    (cur next : Segment) (rest : List Segment) (size : ℕ)
    → cur.end < size
    → hole_loop (cur ∷ next ∷ rest) size ≡ segment cur.end next.begin ∷ hole_loop (next ∷ rest) size
unfolding hole_loop
hole_loop_step cur next rest size h = ground arith

-- What one step of the loop adds, for the holes `hb` and the nodes `kb` behind it.
hole_before :
    (cur next : Segment) (x : ℕ) (hb kb : Bool)
    → cur.begin ≤ x
    → cur.begin < cur.end
    → cur.end < next.begin
    → (x < next.begin → hb ≡ false)
    → (x < next.begin → kb ≡ false)
    → (next.begin ≤ x → hb ≡ not kb)
    → ((leb cur.end x && ltb x next.begin) || hb) ≡ not ((leb cur.begin x && ltb x cur.end) || kb)
hole_before cur next x hb kb p q r u v w = ground arith

hole_loop-holds :
    (xs : List Segment) (lo size x : ℕ) (cur : Segment)
    → Above lo (cur ∷ xs)
    → Within size (cur ∷ xs)
    → cur.begin ≤ x
    → x < size
    → holds (hole_loop (cur ∷ xs) size) x ≡ not (holds (cur ∷ xs) x)
hole_loop-holds [] lo size x cur (p, q, r, a) (w, ws) h k = unfold hole_loop in ground arith
hole_loop-holds (next ∷ rest) lo size x cur (p, q, r, (a, a2, a3, a4)) (w, (w2, ws)) h k =
    let here : Above next.begin (next ∷ rest) = (omega arith, a2, a3, a4) in
    rw (hole_loop_step cur next rest size (omega arith)) (
      hole_before cur next x _ _ h q (omega arith)
        (hole_loop-begin (next ∷ rest) next.begin size x here (w2, ws))
        (holds_below (next ∷ rest) next.begin x here)
        (λ m. hole_loop-holds rest next.begin size x next here (w2, ws) m k))

to_holes_loop :
    (s : Segmentator) (cur : Segment) (rest : List Segment) (size : ℕ)
    → s.chain ≡ cur ∷ rest
    → cur.end < size
    → ((to_holes s size).0 ≡ hole_loop (cur ∷ rest) size)
      × ((to_holes s size).1 ≡ length (to_holes s size).0)
unfolding to_holes hole_loop
to_holes_loop s cur rest size e h = ground arith

-- In a valid object whose nodes lie within `size`, the first of which ends before it, an offset
-- between the first node's begin and `size` lies in one of the holes exactly if it lies in no node,
-- the ends not counted; and the count left with the holes is their number.
pub to_holes-holds :
    (s : Segmentator) (cur : Segment) (rest : List Segment) (size x : ℕ)
    → IsValid s
    → s.chain ≡ cur ∷ rest
    → Within size s.chain
    → cur.end < size
    → cur.begin ≤ x
    → x < size
    → (holds (to_holes s size).0 x ≡ not (holds s.chain x))
      × ((to_holes s size).1 ≡ length (to_holes s size).0)
to_holes-holds s cur rest size x v e w h p q =
    let (same, count) = to_holes_loop s cur rest size e h in
    (
      ap (λ l. holds l x) same
          ∙ hole_loop-holds rest 0 size x cur (rw e at v.ordered) (rw e at w) p q
          ∙ ap (λ l. not (holds l x)) (sym e),
      count,
    )

-- Two offsets in a row that are covered lie in one node, so the first is not only an end.
holds_of_covers :
    (xs : List Segment) (lo x : ℕ)
    → Above lo xs
    → covers xs x ≡ true
    → covers xs (x + 1) ≡ true
    → holds xs x ≡ true
holds_of_covers [] lo x a h k = h
holds_of_covers (s ∷ xs) lo x (p, q, r, a) h k = ground (
  arith,
  holds_of_covers xs (s.end + 2) x a,
  covers_below xs (s.end + 2) x a,
  covers_below xs (s.end + 2) (x + 1) a,
)

-- If an offset is the end of a node of a valid object, or lies in one, and a zone that begins one behind it is
-- inserted, then the offset is held by a node afterwards, although the zone does not hold it.
pub insert_takes_gap :
    (s : Segmentator) (x e : ℕ)
    → IsValid s
    → covers s.chain x ≡ true
    → x + 1 < e
    → e + 1 < word
    → holds (insert s (x + 1) e).0.chain x ≡ true
insert_takes_gap s x e v h p q =
    let c = insert-covers s (x + 1) e in
    holds_of_covers _ 0 x (insert-IsValid s (x + 1) e v q).ordered (c x v q ∙ ground arith)
      (c (x + 1) v q ∙ ground arith)
