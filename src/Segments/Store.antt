-- ===== src/Segments/Store.antt =====
-- tSegmentator::load: what comes back from the file, and what does not.
use d4x.Prelude.{
  ℕ, zero, suc, ◌+◌, ◌≤◌, ◌<◌, ◌≡◌, refl, sym, ap, ◌∙◌, true, some, none, List, [], ◌∷◌, ◌++◌,
  append_assoc, append-nil, ltb, arith, length, get_elem?, take, word, length-append, add64,
}
use d4x.Segments.{
  Segment, Segmentator, walk, autosave, place, insert, read, load_loop, load, done, init,
}
use d4x.Segments.Cover.{Above}
use d4x.Segments.State.{insert-chain}

get_elem?-append :
    (xs ys : List Segment) (y : Segment) → get_elem? (xs ++ y ∷ ys) (length xs) ≡ some y
get_elem?-append [] ys y = refl
get_elem?-append (x ∷ xs) ys y = get_elem?-append xs ys y

get_elem?-length : (xs : List Segment) → get_elem? xs (length xs) ≡ none
get_elem?-length [] = refl
get_elem?-length (x ∷ xs) = get_elem?-length xs

take-length : (xs : List Segment) (n : ℕ) → length xs ≤ n → take n xs ≡ xs
take-length [] zero h = refl
take-length [] (suc n) h = refl
take-length (x ∷ xs) zero h = absurd (omega arith)
take-length (x ∷ xs) (suc n) h = ap (λ l. x ∷ l) (take-length xs n (omega arith))

Above-mem : (xs ys : List Segment) (y : Segment) (lo : ℕ) → Above lo (xs ++ y ∷ ys) → lo ≤ y.begin
Above-mem [] ys y lo a = a.0
Above-mem (x ∷ xs) ys y lo (p, q, r, a) = omega (arith, Above-mem xs ys y (x.end + 2) a)

Above-append_left : (xs ys : List Segment) (lo : ℕ) → lo ≤ word → Above lo (xs ++ ys) → Above lo xs
Above-append_left [] ys lo h a = h
Above-append_left (x ∷ xs) ys lo h (p, q, r, a) =
    (p, q, r, Above-append_left xs ys (x.end + 2) (omega arith) a)

-- A zone behind all nodes becomes the last node.
walk-append :
    (xs ys : List Segment) (y : Segment) (lo : ℕ)
    → Above lo (xs ++ y ∷ ys)
    → (walk xs y.begin y.end).chain ≡ xs ++ y ∷ []
unfolding walk
walk-append [] ys y lo a = refl
walk-append (x ∷ xs) ys y lo (p, q, r, a) =
    let far = Above-mem xs ys y (x.end + 2) a in
    let test : ltb (add64 x.end 1) y.begin ≡ true = ground arith in
    rw test (ap (λ l. x ∷ l) (walk-append xs ys y (x.end + 2) a))

Above-range :
    (xs ys : List Segment) (y : Segment) (lo : ℕ)
    → Above lo (xs ++ y ∷ ys)
    → (y.begin < y.end) × (y.end + 1 < word)
Above-range [] ys y lo (p, q, r, a) = (q, r)
Above-range (x ∷ xs) ys y lo (p, q, r, a) = Above-range xs ys y (x.end + 2) a

-- A round of the loop where `insert` does not save.
record Round (s s' : Segmentator) (y : Segment) : Type 0 where
  chain : s'.chain ≡ s.chain ++ y ∷ []
  autosave : s'.autosave + 1 ≡ s.autosave
  file : s'.file ≡ s.file
  pos : s'.pos ≡ s.pos + 1
  room : s'.room ≡ s.room
  opened : s'.opened ≡ s.opened

autosave-wait :
    (s : Segmentator)
    → 0 < s.autosave
    → ((autosave s).autosave + 1 ≡ s.autosave)
      × ((autosave s).file ≡ s.file)
      × ((autosave s).pos ≡ s.pos)
      × ((autosave s).room ≡ s.room)
      × ((autosave s).opened ≡ s.opened)
unfolding autosave
autosave-wait s h = ground arith

insert-autosave : (s : Segmentator) (b e : ℕ) → b < e → (insert s b e).0 ≡ autosave (place s b e).0
unfolding insert
insert-autosave s b e h = ground arith

place_rest :
    (s : Segmentator) (b e : ℕ)
    → ((place s b e).0.autosave ≡ s.autosave)
      × ((place s b e).0.file ≡ s.file)
      × ((place s b e).0.pos ≡ s.pos)
      × ((place s b e).0.room ≡ s.room)
      × ((place s b e).0.opened ≡ s.opened)
unfolding place
place_rest s b e = ground arith

insert-Round :
    (s : Segmentator) (y : Segment) (ys : List Segment)
    → Above 0 (s.chain ++ y ∷ ys)
    → 0 < s.autosave
    → Round s (insert (record s { pos = s.pos + 1 }) y.begin y.end).0 y
insert-Round s y ys a h =
    let t = record s { pos = s.pos + 1 } in
    let (p, q) = Above-range s.chain ys y 0 a in
    let (r1, r2, r3, r4, r5) = place_rest t y.begin y.end in
    let (w1, w2, w3, w4, w5) = autosave-wait (place t y.begin y.end).0 (omega arith) in
    let e = insert-autosave t y.begin y.end p in
    record {
      chain = insert-chain t y.begin y.end p ∙ walk-append s.chain ys y 0 a;
      autosave = rw e (omega arith);
      file = rw e (w2 ∙ r2);
      pos = rw e (w3 ∙ r3);
      room = rw e (w4 ∙ r4);
      opened = rw e (w5 ∙ r5);
    }

read-some :
    (s : Segmentator) (xs ys : List Segment) (y : Segment)
    → s.file ≡ xs ++ y ∷ ys
    → s.pos ≡ length xs
    → read s ≡ some (y, record s { pos = s.pos + 1 })
unfolding read
read-some s xs ys y e p =
    let g : get_elem? s.file s.pos ≡ some y = rw (e, p) (get_elem?-append xs ys y) in ground arith

read-none : (s : Segmentator) (xs : List Segment) → s.file ≡ xs → s.pos ≡ length xs → read s ≡ none
unfolding read
read-none s xs e p =
    let g : get_elem? s.file s.pos ≡ none = rw (e, p) (get_elem?-length xs) in ground arith

-- The state of the loop: what is in the chain is what was read, in the file `whole`.
record Loading (s : Segmentator) (rest : List Segment) : Type 0 where
  file : s.file ≡ s.chain ++ rest
  pos : s.pos ≡ length s.chain
  ordered : Above 0 (s.chain ++ rest)

Loading-step :
    (s : Segmentator) (y : Segment) (ys : List Segment)
    → Loading s (y ∷ ys)
    → 0 < s.autosave
    → Loading (insert (record s { pos = s.pos + 1 }) y.begin y.end).0 ys
Loading-step s y ys l h =
    let r = insert-Round s y ys l.ordered h in
    let e : (s.chain ++ y ∷ []) ++ ys ≡ s.chain ++ y ∷ ys = append_assoc s.chain (y ∷ []) ys in
    record {
      file = r.file ∙ l.file ∙ sym e ∙ ap (λ l. l ++ ys) (sym r.chain);
      pos = r.pos ∙ rw (r.chain, length-append) (omega (arith, l.pos));
      ordered = rw (r.chain, e) l.ordered;
    }

load_loop-all :
    (ys : List Segment) (s : Segmentator) (fuel : ℕ)
    → Loading s ys
    → length ys ≤ s.autosave
    → length ys < fuel
    → ((load_loop fuel s).chain ≡ s.chain ++ ys) × ((load_loop fuel s).file ≡ s.chain ++ ys)
unfolding load_loop
load_loop-all ys s zero l h k = absurd (omega arith)
load_loop-all [] s (suc fuel) l h k =
    rw (read-none s s.chain (l.file ∙ append-nil s.chain) l.pos, load_loop)
      (sym (append-nil s.chain), l.file)
load_loop-all (y ∷ ys) s (suc fuel) l h k =
    let r = insert-Round s y ys l.ordered (omega arith) in
    let next =
      load_loop-all ys _ fuel (Loading-step s y ys l (omega arith)) (omega (arith, r.autosave))
        (omega arith) in
    let e = ap (λ l. l ++ ys) r.chain ∙ append_assoc s.chain (y ∷ []) ys in
    rw (read-some s s.chain ys y l.file l.pos, load_loop) (next.0 ∙ e, next.1 ∙ e)

-- A round where `insert` saves: the file is what was read so far, and its end is reached.
record Saved (s s' : Segmentator) (y : Segment) : Type 0 where
  chain : s'.chain ≡ s.chain ++ y ∷ []
  file : s'.file ≡ s.chain ++ y ∷ []
  pos : s'.pos ≡ length (s.chain ++ y ∷ [])

autosave-now :
    (s : Segmentator)
    → s.autosave ≡ 0
    → s.opened ≡ true
    → ((autosave s).chain ≡ s.chain)
      × ((autosave s).file ≡ take s.room s.chain)
      × ((autosave s).pos ≡ length (take s.room s.chain))
unfolding autosave
autosave-now s h o = ground arith

insert-Saved :
    (s : Segmentator) (y : Segment) (ys : List Segment)
    → Above 0 (s.chain ++ y ∷ ys)
    → s.autosave ≡ 0
    → s.opened ≡ true
    → length (s.chain ++ y ∷ []) ≤ s.room
    → Saved s (insert (record s { pos = s.pos + 1 }) y.begin y.end).0 y
insert-Saved s y ys a h o fits =
    let t = record s { pos = s.pos + 1 } in
    let (p, q) = Above-range s.chain ys y 0 a in
    let e = insert-autosave t y.begin y.end p in
    let c = insert-chain t y.begin y.end p ∙ walk-append s.chain ys y 0 a in
    let (r1, r2, r3, r4, r5) = place_rest t y.begin y.end in
    let (w1, w2, w3) = autosave-now (place t y.begin y.end).0 (r1 ∙ h) (r5 ∙ o) in
    let c' : (place t y.begin y.end).0.chain ≡ s.chain ++ y ∷ [] =
      sym w1 ∙ ap (λ u. u.chain) (sym e) ∙ c in
    let stored : take (place t y.begin y.end).0.room (place t y.begin y.end).0.chain
        ≡ s.chain ++ y ∷ [] =
      rw (c', r4) (take-length (s.chain ++ y ∷ []) s.room fits) in
    record { chain = c; file = rw e (w2 ∙ stored); pos = rw e (w3 ∙ ap length stored) }

load_loop_end :
    (s : Segmentator) (xs : List Segment) (fuel : ℕ)
    → s.file ≡ xs
    → s.pos ≡ length xs
    → load_loop fuel s ≡ s
unfolding load_loop
load_loop_end s xs zero e p = refl
load_loop_end s xs (suc fuel) e p = rw (read-none s xs e p, load_loop)

load_loop-stop :
    (xs ys : List Segment) (s : Segmentator) (fuel : ℕ)
    → Loading s (xs ++ ys)
    → length xs ≡ s.autosave + 1
    → length xs ≤ fuel
    → s.opened ≡ true
    → length (s.chain ++ xs) ≤ s.room
    → ((load_loop fuel s).chain ≡ s.chain ++ xs) × ((load_loop fuel s).file ≡ s.chain ++ xs)
unfolding load_loop
load_loop-stop [] ys s fuel l h k o fits = absurd (omega arith)
load_loop-stop (y ∷ xs) ys s zero l h k o fits = absurd (omega arith)
load_loop-stop (y ∷ []) ys s (suc fuel) l h k o fits =
    let r = insert-Saved s y ys l.ordered (omega arith) o fits in
    let s' = (insert (record s { pos = s.pos + 1 }) y.begin y.end).0 in
    let end = load_loop_end s' (s.chain ++ y ∷ []) fuel r.file r.pos in
    rw (read-some s s.chain ys y l.file l.pos, load_loop)
      (ap (λ u. u.chain) end ∙ r.chain, ap (λ u. u.file) end ∙ r.file)
load_loop-stop (y ∷ y' ∷ xs) ys s (suc fuel) l h k o fits =
    let r = insert-Round s y (y' ∷ xs ++ ys) l.ordered (omega arith) in
    let e = ap (λ l. l ++ y' ∷ xs) r.chain ∙ append_assoc s.chain (y ∷ []) (y' ∷ xs) in
    let s' = (insert (record s { pos = s.pos + 1 }) y.begin y.end).0 in
    let next =
      load_loop-stop (y' ∷ xs) ys s' fuel (Loading-step s y (y' ∷ xs ++ ys) l (omega arith))
        (omega (arith, r.autosave)) (omega arith) (r.opened ∙ o) (rw (e, r.room) fits) in
    rw (read-some s s.chain (y' ∷ xs ++ ys) y l.file l.pos, load_loop) (next.0 ∙ e, next.1 ∙ e)

-- The object when `init` starts to load.
abbrev fresh : Segmentator → List Segment → ℕ → Segmentator
fresh s content room = record s {
  chain = [];
  total = 0;
  autosave = 51;
  opened = true;
  file = content;
  pos = 0;
  room = room;
}

-- A file that holds at most 51 segments in order, with gaps, is read back whole: the chain is what
-- the file holds, and the file is left as it is.
pub init-chain :
    (s : Segmentator) (xs : List Segment) (room : ℕ)
    → Above 0 xs
    → length xs ≤ 51
    → ((init s xs room).chain ≡ xs) × ((init s xs room).file ≡ xs)
unfolding init load done
init-chain s xs room a h =
    load_loop-all xs (fresh s xs room) (suc (length xs))
      (record { file = refl; pos = refl; ordered = a }) h (omega arith)

-- From a file of more than 52 segments in order, only the first 52 are read back, and the others
-- are gone from the file too, if the file can take 52 segments at all.
pub init_drops :
    (s : Segmentator) (xs ys : List Segment) (room : ℕ)
    → Above 0 (xs ++ ys)
    → length xs ≡ 52
    → 52 ≤ room
    → ((init s (xs ++ ys) room).chain ≡ xs) × ((init s (xs ++ ys) room).file ≡ xs)
unfolding init load done
init_drops s xs ys room a h k =
    load_loop-stop xs ys (fresh s (xs ++ ys) room) (suc (length (xs ++ ys)))
      (record { file = refl; pos = refl; ordered = a }) h (omega (arith, length-append xs ys)) refl
      (omega arith)
