-- ===== src/Queue/Sorted.antt =====
-- tQueue::sort by a number of each node: it ends, and puts the nodes in order. Each node that it moves
-- makes the queue less in the order of the words over the numbers, so that the rank of the queue, its
-- numbers read as the digits of one number, is a bound for the moves.
use mathlib.Core.List.{Perm, perm_middle}
use mathlib.Core.List.Perm
use native.Mathlib.Nat.{mul-le-mul_right}
use d4x.Prelude.{
  ℕ, zero, suc, ◌+◌, ◌-◌, ◌*◌, ◌^◌, ◌≤◌, ◌<◌, false, Option, none, some, List, [], ◌∷◌, ◌++◌,
  if_intro, length, length-append, All, All-append, All-append_left, All-append_right, ltb→lt, ◌≡◌,
  refl, sym, ap, ◌∙◌, append-nil, append_assoc, arith,
}
use d4x.Queue.{Queue, is_full, insert, insert_last, free_to_limit}
use d4x.Queue.Limit.{Bounded, Counted}
use d4x.Queue.Sort.{unlink, from_first, sort_loop, sort, by_key}
use d4x.Queue.Rank.{IsDigit, rank, rank-lt, rank-append, rank-moved}

-- The numbers of the nodes do not decrease.
unfoldable pub Ascending : (ℕ → ℕ) → List ℕ → Type 0
Ascending key [] = Unit
Ascending key (a ∷ []) = Unit
Ascending key (a ∷ b ∷ nodes) = (key a ≤ key b) × Ascending key (b ∷ nodes)

Ascending-append :
    (key : ℕ → ℕ) (xs : List ℕ) (a b : ℕ)
    → Ascending key (xs ++ (a ∷ []))
    → key a ≤ key b
    → Ascending key ((xs ++ (a ∷ [])) ++ (b ∷ []))
unfolding Ascending
Ascending-append key [] a b h l = (l, tt)
Ascending-append key (x ∷ []) a b (h, hs) l = (h, Ascending-append key [] a b hs l)
Ascending-append key (x ∷ y ∷ xs) a b (h, hs) l = (h, Ascending-append key (y ∷ xs) a b hs l)

-- What was passed is in order, with the first node behind it.
unfoldable Passed : (ℕ → ℕ) → List ℕ → List ℕ → Type 0
Passed key passed [] = Ascending key passed
Passed key passed (a ∷ nodes) = Ascending key (passed ++ (a ∷ []))

-- A node that is taken out of a queue is put in without another one's going.
free_to_limit-room : (q : Queue) → is_full q.max_num q.num ≡ false → free_to_limit q ≡ some q
unfolding free_to_limit
free_to_limit-room q h = rw h refl

insert-unlink :
    (q : Queue) (passed older : List ℕ) (a : ℕ)
    → Bounded q
    → 0 < q.num
    → insert (unlink q passed older) a
      ≡ some (record q { items = (passed ++ older) ++ (a ∷ []); num = q.num; curent = a })
unfolding insert insert_last unlink Bounded is_full
insert-unlink q passed older a (c, b) p =
    let room : is_full q.max_num (q.num - 1) ≡ false = ground (arith, b) in
    let same : q.num - 1 + 1 ≡ q.num = omega (arith, p) in
    rw (free_to_limit-room (unlink q passed older) room, same) refl

-- What the loop leaves: a queue in order, of the same nodes.
Passed-nil : (key : ℕ → ℕ) (nodes : List ℕ) → Passed key [] nodes
unfolding Passed Ascending
Passed-nil key [] = tt
Passed-nil key (a ∷ nodes) = tt

module _ (key : ℕ → ℕ) (base : ℕ) where
  -- The nodes behind one that is moved.
  moved-Perm :
      (passed older : List ℕ) (a : ℕ) → Perm ((passed ++ older) ++ (a ∷ [])) (passed ++ (a ∷ older))
  moved-Perm passed older a =
      Perm.trans (rw (append-nil (passed ++ older)) at (perm_middle {a = a} (passed ++ older) []))
        (Perm.symm (perm_middle {a = a} passed older))

  moved-All :
      (passed older : List ℕ) (a : ℕ)
      → All (IsDigit key base) (passed ++ (a ∷ older))
      → All (IsDigit key base) ((passed ++ older) ++ (a ∷ []))
  moved-All passed older a h =
      let D = IsDigit key base in
      let front = All-append_left D passed (a ∷ older) h in
      let back = All-append_right D passed (a ∷ older) h in
      All-append D (passed ++ older) (a ∷ []) (All-append D passed older front back.1) (back.0, tt)

  moved-rank :
      (passed older : List ℕ) (a prev : ℕ)
      → key prev < key a
      → All (IsDigit key base) (passed ++ (a ∷ prev ∷ older))
      → rank key base ((passed ++ (prev ∷ older)) ++ (a ∷ []))
        < rank key base (passed ++ (a ∷ prev ∷ older))
  moved-rank passed older a prev h d =
      let D = IsDigit key base in
      let back = All-append_right D passed (a ∷ prev ∷ older) d in
      rw (append_assoc passed (prev ∷ older) (a ∷ [])) (
        rank-append key base passed (prev ∷ (older ++ (a ∷ []))) (a ∷ prev ∷ older)
          (omega (arith, length-append older (a ∷ [])))
          (rank-moved key base a prev older h (All-append D older (a ∷ []) back.1.1 (back.0, tt))))

  moved-length :
      (passed older : List ℕ) (a : ℕ)
      → length ((passed ++ older) ++ (a ∷ [])) ≡ length (passed ++ (a ∷ older))
  moved-length passed older a = omega (
    arith,
    length-append (passed ++ older) (a ∷ []),
    length-append passed older,
    length-append passed (a ∷ older),
  )

  record IsSorted (q q' : Queue) : Type 0 where
    in_order : Ascending key q'.items
    same_nodes : Perm q'.items q.items
    bounded : Bounded q'

  unfoldable SortsTo : Queue → Option Queue → Type 0
  SortsTo q none = ⊥
  SortsTo q (some q') = IsSorted q q'

  SortsTo-trans :
      (q q₁ : Queue) (o : Option Queue) → Perm q₁.items q.items → SortsTo q₁ o → SortsTo q o
  unfolding SortsTo
  SortsTo-trans q q₁ none h s = s
  SortsTo-trans q q₁ (some q') h s = record {
    in_order = s.in_order;
    same_nodes = Perm.trans s.same_nodes h;
    bounded = s.bounded;
  }

  ended : (q : Queue) → Ascending key q.items → Bounded q → SortsTo q (some q)
  unfolding SortsTo
  ended q h b = record { in_order = h; same_nodes = Perm.refl q.items; bounded = b }

  -- The queue behind one that was moved is within the limit too.
  moved-Bounded :
      (q : Queue) (passed older : List ℕ) (a : ℕ)
      → q.items ≡ passed ++ (a ∷ older)
      → Bounded q
      → Bounded (record q { items = (passed ++ older) ++ (a ∷ []); curent = a })
  unfolding Bounded Counted
  moved-Bounded q passed older a e (c, b) = (c ∙ ap length e ∙ sym (moved-length passed older a), b)

  unfoldable Enough : ℕ → Queue → List ℕ → Type 0
  Enough fuel q nodes = rank key base q.items * suc (length q.items) + length nodes < fuel

  there :
      (q : Queue) (passed older : List ℕ) (a : ℕ)
      → q.items ≡ passed ++ (a ∷ older)
      → Bounded q
      → 0 < q.num
  unfolding Bounded Counted
  there q passed older a e (c, b) = omega (arith, c, ap length e, length-append passed (a ∷ older))

  moved-Enough :
      (fuel : ℕ) (q : Queue) (passed older : List ℕ) (a prev : ℕ)
      → q.items ≡ passed ++ (a ∷ prev ∷ older)
      → key prev < key a
      → All (IsDigit key base) (passed ++ (a ∷ prev ∷ older))
      → Enough (suc fuel) q (a ∷ prev ∷ older)
      → Enough fuel
          (record q { items = (passed ++ (prev ∷ older)) ++ (a ∷ []); curent = a })
          ((passed ++ (prev ∷ older)) ++ (a ∷ []))
  unfolding Enough
  moved-Enough fuel q passed older a prev e h d l =
      let nodes = passed ++ (a ∷ prev ∷ older) in
      let l₀ = rw e at l in
      rw (moved-length passed (prev ∷ older) a) (
        omega
          (arith, l₀, mul-le-mul_right (suc (length nodes)) (moved-rank passed older a prev h d)))

  sort_loop-SortsTo :
      (fuel : ℕ) (q : Queue) (passed nodes : List ℕ)
      → q.items ≡ passed ++ nodes
      → Passed key passed nodes
      → All (IsDigit key base) q.items
      → Bounded q
      → Enough fuel q nodes
      → SortsTo q (sort_loop fuel (by_key key) q passed nodes)
  unfolding sort_loop Passed Enough by_key from_first Ascending
  sort_loop-SortsTo zero q passed nodes e p d b l = absurd (omega (arith, l))
  sort_loop-SortsTo (suc fuel) q passed [] e p d b l = ended q (rw (e, append-nil passed) p) b
  sort_loop-SortsTo (suc fuel) q passed (a ∷ []) e p d b l = ended q (rw e p) b
  sort_loop-SortsTo (suc fuel) q passed (a ∷ prev ∷ older) e p d b l =
      let q₁ : Queue = record q { items = (passed ++ (prev ∷ older)) ++ (a ∷ []); curent = a } in
      let d₀ = rw e at d in
      let some_there : 0 < q.num = there q passed (prev ∷ older) a e b in
      if_intro (SortsTo q) (by_key key a prev)
        (λ h.
          let less : key prev < key a = ltb→lt (key prev) (key a) h in
          rw (insert-unlink q passed (prev ∷ older) a b some_there) (
            SortsTo-trans q q₁ (sort_loop fuel (by_key key) q₁ [] q₁.items)
              (rw e (moved-Perm passed (prev ∷ older) a))
              (sort_loop-SortsTo fuel q₁ [] q₁.items refl (Passed-nil key q₁.items)
                (moved-All passed (prev ∷ older) a d₀) (moved-Bounded q passed (prev ∷ older) a e b)
                (moved-Enough fuel q passed older a prev e less d₀ l))))
        (λ h.
          sort_loop-SortsTo fuel q (passed ++ (a ∷ [])) (prev ∷ older)
            (e ∙ sym (append_assoc passed (a ∷ []) (prev ∷ older)))
            (Ascending-append key passed a prev p (ground arith)) d b (omega (arith, l)))

  from_SortsTo :
      (q : Queue) (o : Option Queue)
      → SortsTo q o
      → (q' : Queue) × (o ≡ some q') × Ascending key q'.items × Perm q'.items q.items × Bounded q'
  unfolding SortsTo
  from_SortsTo q none h = absurd h
  from_SortsTo q (some q') h = (q', refl, h.in_order, h.same_nodes, h.bounded)

  -- A queue within its limit, whose Num is its number of nodes and whose nodes have numbers below
  -- `base`, is sorted by these numbers in at most `base ^ n * (n + 1)` passes of the loop, where `n`
  -- is the number of nodes: then the numbers do not decrease from the first node to the last one, the
  -- nodes are those that were there, and the queue is within its limit.
  pub sort-Ascending :
      (fuel : ℕ) (q : Queue)
      → Bounded q
      → All (IsDigit key base) q.items
      → base ^ length q.items * suc (length q.items) ≤ fuel
      → (q' : Queue) × (sort fuel (by_key key) q ≡ some q')
        × Ascending key q'.items
        × Perm q'.items q.items
        × Bounded q'
  unfolding sort Enough
  sort-Ascending fuel q b d l = from_SortsTo q (sort_loop fuel (by_key key) q [] q.items) (
      sort_loop-SortsTo fuel q [] q.items refl (Passed-nil key q.items) d b
        (omega (arith, l, mul-le-mul_right (suc (length q.items)) (rank-lt key base q.items d))))
