-- ===== src/Queue/Sort.antt =====
-- main/queue.cc: tQueue::sort.
use d4x.Prelude.{
  ℕ, zero, suc, ◌-◌, Bool, Option, none, some, List, [], ◌∷◌, ◌++◌, ltb, if◌then◌else◌,
}
use d4x.Queue.{Queue, insert}

-- tQueue::del of the node between `passed` and `older`.
unfoldable pub unlink : Queue → List ℕ → List ℕ → Queue
unlink q passed older = record q { items = passed ++ older; num = q.num - 1 }

-- `a=First` behind an insertion, and the next pass of the loop.
unfoldable pub from_first : (Queue → List ℕ → List ℕ → Option Queue) → Option Queue → Option Queue
from_first k none = none
from_first k (some q) = k q [] q.items

-- The loop of tQueue::sort with `cmpfunc(a,prev)>0` for the test: `a` is the first node behind those
-- that were passed, `prev` the one behind it. `none` means that the fuel did not suffice.
unfoldable pub sort_loop : ℕ → (ℕ → ℕ → Bool) → Queue → List ℕ → List ℕ → Option Queue
unfolding unlink from_first insert
sort_loop zero cmpfunc q passed nodes = none
sort_loop (suc fuel) cmpfunc q passed [] = some q
sort_loop (suc fuel) cmpfunc q passed (a ∷ []) = some q
sort_loop (suc fuel) cmpfunc q passed (a ∷ prev ∷ older) =
    let on = sort_loop fuel cmpfunc q (passed ++ (a ∷ [])) (prev ∷ older) in
    if cmpfunc a prev
    then from_first (sort_loop fuel cmpfunc) (insert (unlink q passed (prev ∷ older)) a)
    else on

-- tQueue::sort
unfoldable pub sort : ℕ → (ℕ → ℕ → Bool) → Queue → Option Queue
unfolding sort_loop
sort fuel cmpfunc q = sort_loop fuel cmpfunc q [] q.items

-- The comparison of two nodes by a number: is that of the first one greater?
unfoldable pub by_key : (ℕ → ℕ) → ℕ → ℕ → Bool
by_key key a prev = ltb (key prev) (key a)
