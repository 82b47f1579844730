-- ===== src/Segments.antt =====
-- main/segments.cc and main/segments.h: the map of the parts of a file that are downloaded.
-- A chain is the nodes that are reached from FIRST along `next`, in order. `walk` and what it calls
-- are the branches of tSegmentator::insert; the rest is the object and its methods.
pub mod Canonical
pub mod Cover
pub mod Holes
pub mod State
pub mod Store
mod Tests
use d4x.Prelude.{
  ℕ, zero, suc, ◌+◌, ◌-◌, Bool, true, false, ◌&&◌, ◌||◌, Option, none, some, List, [], ◌∷◌, ltb,
  leb, ◌==◌, if◌then◌else◌, word, add64, sub64, length, get_elem?, take,
}

-- tSegment: `begin` and `end`. The links are the order of the list.
pub record Segment : Type 0 where
  pub begin : ℕ
  pub end : ℕ

abbrev pub segment : ℕ → ℕ → Segment
segment b e = record { begin = b; end = e }

-- What a walk over the chain gives: the new chain, what is added to `total`, and `rval`.
pub record Inserted : Type 0 where
  pub chain : List Segment
  pub added : ℕ
  pub overlap : Bool

-- What is left of the loop that removes followers: `cur`, `dec` and the rest of the chain.
pub record Compacted : Type 0 where
  pub cur : Segment
  pub dec : ℕ
  pub rest : List Segment

-- `while(cur->next)`: a follower that begins at most one behind `cur->end` is taken into `cur`.
pub compact : Segment → ℕ → List Segment → Compacted
compact cur dec [] = record { cur = cur; dec = dec; rest = [] }
compact cur dec (next ∷ rest) =
    let grown = if ltb cur.end next.end then segment cur.begin next.end else cur in
    let further = compact grown (add64 dec (sub64 next.end next.begin)) rest in
    if leb next.begin (add64 cur.end 1)
    then further
    else record { cur = cur; dec = dec; rest = next ∷ rest }

-- The branch for a node that the new zone meets.
pub merge : Segment → List Segment → ℕ → ℕ → Inserted
merge cur rest begin end =
    let c =
      compact
        (segment (if ltb begin cur.begin then begin else cur.begin)
          (if ltb cur.end end then end else cur.end))
        (sub64 cur.end cur.begin) rest in
    record {
      chain = c.cur ∷ c.rest;
      added = sub64 (sub64 c.cur.end c.cur.begin) c.dec;
      overlap = (leb begin cur.begin && ltb cur.begin end) || ltb end cur.end;
    }

-- The walk to the first node that ends at `begin - 1` or later, and the three branches there.
pub walk : List Segment → ℕ → ℕ → Inserted
unfolding merge
walk [] begin end = record {
  chain = segment begin end ∷ [];
  added = sub64 end begin;
  overlap = false;
}
walk (cur ∷ rest) begin end =
    let later = walk rest begin end in
    if ltb (add64 cur.end 1) begin
    then record later { chain = cur ∷ later.chain }
    else if ltb (add64 end 1) cur.begin
    then record { chain = segment begin end ∷ cur ∷ rest; added = sub64 end begin; overlap = false }
    else merge cur rest begin end

-- `autosave` is `autosave_counter + 1`, so that -1 is 0. `file` and `pos` are what `fd` refers to,
-- in segments, and `room` is how many segments a write can store there; `opened` is `fd >= 0`.
pub record Segmentator : Type 0 where
  pub chain : List Segment
  pub total : ℕ
  pub autosave : ℕ
  pub opened : Bool
  pub file : List Segment
  pub pos : ℕ
  pub room : ℕ

-- tSegmentator::save: rewrites the file from its start; false if it is not open or a write fails.
pub save : Segmentator → Segmentator × Bool
save s =
    let stored = take s.room s.chain in
    if s.opened
    then (record s { file = stored; pos = length stored }, leb (length s.chain) s.room)
    else (s, false)

-- `if (autosave_counter--<0)`
pub autosave : Segmentator → Segmentator
unfolding save
autosave s =
    if s.autosave == 0
    then (save (record s { autosave = 51 })).0
    else record s { autosave = s.autosave - 1 }

-- The chain and `total` after the branches of `insert`.
pub place : Segmentator → ℕ → ℕ → Segmentator × Bool
unfolding walk
place s begin end = elim s.chain [
  | [] ↦ (record s { chain = segment begin end ∷ []; total = sub64 end begin }, false)
  | cur ∷ rest ↦
      let w = walk (cur ∷ rest) begin end in
      (record s { chain = w.chain; total = add64 s.total w.added }, w.overlap)
]

-- tSegmentator::insert
pub insert : Segmentator → ℕ → ℕ → Segmentator × Bool
unfolding place autosave
insert s begin end =
    let (placed, rval) = place s begin end in
    if leb end begin then (s, false) else (autosave placed, rval)

-- tSegmentator::one_segment
pub one_segment : Segmentator → Bool
one_segment s = leb (length s.chain) 1

-- The two reads of one round of `load`: `none` at the end of the file.
pub read : Segmentator → Option (Segment × Segmentator)
read s = elim (get_elem? s.file s.pos) [
  | none ↦ none
  | some seg ↦ some (seg, record s { pos = s.pos + 1 })
]

-- The loop of `load`, with fuel: a round reads a segment and inserts it.
pub load_loop : ℕ → Segmentator → Segmentator
unfolding read insert
load_loop zero s = s
load_loop (suc fuel) s = elim (read s) [
  | none ↦ s
  | some (seg, s') ↦ load_loop fuel (insert s' seg.begin seg.end).0
]

-- tSegmentator::load. A round moves `pos` on or to the end of the file, so that the length of the
-- file and one more is fuel enough.
pub load : Segmentator → Segmentator
unfolding load_loop
load s = if s.opened then load_loop (suc (length s.file)) (record s { pos = 0 }) else s

-- tSegmentator::done, the object's part: the nodes go to the free list, and the file is closed.
pub done : Segmentator → Segmentator
done s = record s { chain = []; total = 0; opened = false }

-- tSegmentator::init for a path that `open` opens with the given content.
pub init : Segmentator → List Segment → ℕ → Segmentator
unfolding done load
init s content room =
    load (record (done s) { autosave = 51; opened = true; file = content; pos = 0; room = room })

-- The last node of a chain.
pub last : Segment → List Segment → Segment
last cur [] = cur
last cur (next ∷ rest) = last next rest

-- The two branches of tSegmentator::complete, by the chain.
pub finish : Segmentator → List Segment → Segmentator
unfolding done last
finish s [] = record s { file = [] }
finish s (cur ∷ rest) =
    let a = segment cur.begin (last cur rest).end in
    record (done s) { chain = a ∷ []; total = sub64 a.end a.begin; file = [] }

-- tSegmentator::complete: the file is removed, and the chain becomes one segment from the first
-- node's begin to the last node's end.
pub complete : Segmentator → Segmentator
unfolding finish
complete s = finish s s.chain

-- Where the hole behind a node ends: at the begin of the next node, or at `size`.
pub hole_end : List Segment → ℕ → ℕ
hole_end [] size = size
hole_end (next ∷ rest) size = next.begin

-- The loop of `to_holes`, which stops at a node that ends at `size` or later.
pub hole_loop : List Segment → ℕ → List Segment
unfolding hole_end
hole_loop [] size = []
hole_loop (cur ∷ rest) size =
    if ltb cur.end size then segment cur.end (hole_end rest size) ∷ hole_loop rest size else []

-- tSegmentator::to_holes: the holes, and the count that it leaves in `offset_in_file` of the first.
pub to_holes : Segmentator → ℕ → List Segment × ℕ
unfolding hole_loop
to_holes s size = elim (hole_loop s.chain size) [
  | [] ↦ (segment 0 size ∷ [], 1)
  | h ∷ hs ↦ (h ∷ hs, length (h ∷ hs))
]
