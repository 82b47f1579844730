-- ===== src/Queue.antt =====
-- main/queue.cc: tQueue, the linked queue with a limit that is behind the lists of downloads, logs
-- and histories. `items` holds the addresses of the nodes from First along `prev` to Last, so that
-- the oldest node comes first; 0 is the pointer NULL.
pub mod Limit
pub mod Members
pub mod Sort
pub mod Rank
pub mod Sorted
mod Tests
use d4x.Prelude.{
  ℕ, zero, suc, ◌+◌, ◌-◌, Bool, true, false, ◌&&◌, Option, none, some, List, [], ◌∷◌, ◌++◌, ◌==◌,
  leb, ltb, if◌then◌else◌, length,
}

-- tQueue: the nodes, Num, MaxNum and Curent.
pub record Queue : Type 0 where
  pub items : List ℕ
  pub num : ℕ
  pub max_num : ℕ
  pub curent : ℕ

-- tQueue::dispose: the oldest node goes; Curent stays.
pub dispose : Queue → Queue
dispose q = elim q.items [ [] ↦ q | first ∷ rest ↦ record q { items = rest; num = q.num - 1 } ]

-- `while (Num>=MaxNum) dispose ()` on the nodes and Num. Without a node dispose changes nothing, and
-- the loop does not end: `none`.
pub free_loop : ℕ → List ℕ → ℕ → Option (List ℕ × ℕ)
free_loop max [] num = if leb max num then none else some ([], num)
free_loop max (first ∷ rest) num =
    let more = free_loop max rest (num - 1) in
    if leb max num then more else some (first ∷ rest, num)

-- The queue with those nodes and that Num.
pub with_items : Queue → Option (List ℕ × ℕ) → Option Queue
with_items q none = none
with_items q (some (items, num)) = some (record q { items = items; num = num })

-- `MaxNum && Num>=MaxNum`
pub is_full : ℕ → ℕ → Bool
is_full max num = ltb 0 max && leb max num

-- tQueue::free_to_limit
pub free_to_limit : Queue → Option Queue
unfolding free_loop with_items is_full
free_to_limit q =
    if is_full q.max_num q.num then with_items q (free_loop q.max_num q.items q.num) else some q

-- tQueue::init
pub init : ℕ → Queue → Option Queue
unfolding free_to_limit
init n q = free_to_limit (record q { max_num = n; num = length q.items })

-- tQueue::insert behind free_to_limit: the node becomes Last and Curent.
pub insert_last : ℕ → Option Queue → Option Queue
insert_last what none = none
insert_last what (some q) =
    some (record q { items = q.items ++ what ∷ []; num = q.num + 1; curent = what })

-- tQueue::insert
pub insert : Queue → ℕ → Option Queue
unfolding free_to_limit insert_last
insert q what = insert_last what (free_to_limit q)

-- The node `what` between `where` and the next older node.
pub put_before : ℕ → ℕ → List ℕ → List ℕ
put_before what place [] = []
put_before what place (a ∷ rest) =
    let more = put_before what place rest in if a == place then what ∷ a ∷ rest else a ∷ more

-- tQueue::insert_before behind free_to_limit, which must not have disposed of `where`.
pub insert_at : ℕ → ℕ → Option Queue → Option Queue
unfolding put_before
insert_at what place none = none
insert_at what place (some q) =
    some (record q { items = put_before what place q.items; num = q.num + 1 })

-- tQueue::insert_before
pub insert_before : Queue → ℕ → ℕ → Option Queue
unfolding free_to_limit insert_at
insert_before q what place = insert_at what place (free_to_limit q)

-- What del leaves of the nodes.
pub without : ℕ → List ℕ → List ℕ
without what [] = []
without what (a ∷ rest) = let more = without what rest in if a == what then rest else a ∷ more

-- tQueue::del
pub del : Queue → ℕ → Queue
unfolding without
del q what = record q { items = without what q.items; num = q.num - 1 }

-- The loop of tQueue::done on the nodes and Num.
pub done_loop : List ℕ → ℕ → ℕ
done_loop [] num = num
done_loop (first ∷ rest) num = done_loop rest (num - 1)

-- tQueue::done
pub done : Queue → Queue
unfolding done_loop
done q = record q { items = []; num = done_loop q.items q.num }

-- tQueue::count
pub count : Queue → ℕ
count q = q.num
