-- ===== src/Segments/Tests.antt =====
-- Runs of the methods of tSegmentator, and the theorems at concrete objects.
use d4x.Prelude.{
  ℕ, zero, suc, ◌+◌, ◌≡◌, refl, true, not, ◌&&◌, ◌||◌, List, [], ◌∷◌, ltb, leb, arith, length,
}
use d4x.Segments.{Segment, segment, Segmentator, insert, to_holes, init, compact}
use d4x.Segments.Cover.{covers}
use d4x.Segments.State.{IsValid, insert-IsValid, insert-covers, insert_comm}
use d4x.Segments.Holes.{holds, to_holes-holds}
use d4x.Segments.Store.{init-chain}

abbrev chain : List Segment
chain = segment 0 100 ∷ segment 200 300 ∷ segment 400 500 ∷ []

abbrev object : Segmentator
object = record {
  chain = chain;
  total = 300;
  autosave = 10;
  opened = true;
  file = [];
  pos = 0;
  room = 1000;
}

object-IsValid : IsValid object
object-IsValid = omega arith

-- A zone that reaches from the second node to the third joins them.
insert_joins : (insert object 250 399).0.chain ≡ segment 0 100 ∷ segment 200 500 ∷ []
unfolding insert compact
insert_joins = refl

insert_total : (insert object 250 399).0.total ≡ 400
unfolding insert compact
insert_total = refl

-- The zone 101 to 200 does not hold the byte at 100, and the joined node does.
insert_swallows : (insert object 101 200).0.chain ≡ segment 0 300 ∷ segment 400 500 ∷ []
unfolding insert compact
insert_swallows = refl

-- What the comment in front of `insert` calls "not overlapped" is reported as an overlap.
overlap_same_begin : (insert (record object { chain = segment 100 200 ∷ [] }) 100 300).1 ≡ true
unfolding insert compact
overlap_same_begin = refl

overlap_before : (insert (record object { chain = segment 100 200 ∷ [] }) 0 99).1 ≡ true
unfolding insert compact
overlap_before = refl

holes_of_object : (to_holes object 600).0 ≡ segment 100 200 ∷ segment 300 400 ∷ segment 500 600 ∷ []
unfolding to_holes
holes_of_object = refl

insert-IsValid_example : IsValid (insert object 250 399).0
insert-IsValid_example = insert-IsValid object 250 399 object-IsValid (omega arith)

insert-covers_example :
    covers (insert object 250 399).0.chain 350
    ≡ (covers object.chain 350 || (ltb 250 399 && (leb 250 350 && leb 350 399)))
insert-covers_example = insert-covers object 250 399 350 object-IsValid (omega arith)

insert_comm_example :
    let one = (insert (insert object 250 399).0 90 120).0 in
    let two = (insert (insert object 90 120).0 250 399).0 in
    (one.chain ≡ two.chain) × (one.total ≡ two.total)
insert_comm_example =
    insert_comm object 250 399 90 120 object-IsValid (omega arith) (omega arith) (omega arith)
      (omega arith)

to_holes-holds_example :
    (holds (to_holes object 600).0 350 ≡ not (holds object.chain 350))
    × ((to_holes object 600).1 ≡ length (to_holes object 600).0)
to_holes-holds_example =
    to_holes-holds object (segment 0 100) (segment 200 300 ∷ segment 400 500 ∷ []) 600 350
      object-IsValid refl (omega arith) (omega arith) (omega arith) (omega arith)

init-chain_example :
    ((init object chain 1000).chain ≡ chain) × ((init object chain 1000).file ≡ chain)
init-chain_example = init-chain object chain 1000 (omega arith) (omega arith)

-- n segments of one offset, three offsets apart, from `b` on.
abbrev spaced : ℕ → ℕ → List Segment
spaced zero b = []
spaced (suc n) b = segment b (b + 1) ∷ spaced n (b + 3)
