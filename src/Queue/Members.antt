-- ===== src/Queue/Members.antt =====
-- The nodes that a queue holds, and those of them that an operation puts in or takes out.
use d4x.Prelude.{ℕ, ◌+◌, ◌-◌, ◌≢◌, some, List, [], ◌∷◌, ◌++◌, length, ◌≡◌, refl, arith, All, drop}
use d4x.Queue.{Queue, insert, insert_before, insert_at, put_before, without, del, done_loop, done}
use d4x.Queue.Limit.{length-drop, Counted, excess, insert_lem, free_to_limit_lem}

-- The list does not hold the node.
unfoldable pub Absent : ℕ → List ℕ → Type 0
Absent what items = All (λ a. a ≢ what) items

without-append : (what : ℕ) (xs : List ℕ) → Absent what xs → without what (xs ++ what ∷ []) ≡ xs
unfolding without Absent
without-append what [] h = ground arith
without-append what (a ∷ xs) (h, hs) = ground (arith, without-append what xs hs)

-- If a node is inserted into a queue whose Num is its number of nodes, and that does not hold it
-- once the limit has made room, and is deleted again, then the nodes are those that were there, but
-- for the oldest ones that the limit had no room for, in their order, and Num is their number.
pub del-insert :
    (q : Queue) (what : ℕ)
    → Counted q
    → Absent what (drop (excess q) q.items)
    → (q' : Queue) × (insert q what ≡ some q')
      × ((del q' what).items ≡ drop (excess q) q.items)
      × Counted (del q' what)
unfolding del Counted
del-insert q what c h = (
  _,
  insert_lem q what c,
  without-append what (drop (excess q) q.items) h,
  rw (without-append what (drop (excess q) q.items) h)
      (omega (arith, length-drop (excess q) q.items)),
)

put_before-append :
    (what place : ℕ) (xs ys : List ℕ)
    → Absent place xs
    → put_before what place (xs ++ place ∷ ys) ≡ xs ++ what ∷ place ∷ ys
unfolding put_before Absent
put_before-append what place [] ys h = ground arith
put_before-append what place (a ∷ xs) ys (h, hs) =
    ground (arith, put_before-append what place xs ys hs)

-- If the node `place` is one of those that the limit leaves, then insert_before puts the new node
-- between it and the node that is next older, and changes no other place in the queue.
pub insert_before_lem :
    (q : Queue) (what place : ℕ) (xs ys : List ℕ)
    → Counted q
    → drop (excess q) q.items ≡ xs ++ place ∷ ys
    → Absent place xs
    → (q' : Queue) × (insert_before q what place ≡ some q')
      × (q'.items ≡ xs ++ what ∷ place ∷ ys)
      × (q'.curent ≡ q.curent)
unfolding insert_before insert_at
insert_before_lem q what place xs ys c e h = (
  record q { items = xs ++ what ∷ place ∷ ys; num = length q.items - excess q + 1 },
  rw (free_to_limit_lem q c, e, put_before-append what place xs ys h) refl,
  refl,
  refl,
)

done_loop_lem : (xs : List ℕ) (num : ℕ) → done_loop xs num ≡ num - length xs
unfolding done_loop
done_loop_lem [] num = omega arith
done_loop_lem (x ∷ xs) num = omega (arith, done_loop_lem xs (num - 1))

-- After done a queue whose Num was its number of nodes is empty and its Num is 0.
pub done_empties : (q : Queue) → Counted q → ((done q).items ≡ []) × ((done q).num ≡ 0)
unfolding done Counted
done_empties q c = (refl, omega (arith, done_loop_lem q.items q.num, c))
