-- ===== src/Queue/Tests.antt =====
-- The theorems on queues at a queue of three nodes with the limit three.
use mathlib.Core.List.{Perm}
use d4x.Prelude.{ℕ, ◌+◌, ◌-◌, ◌/◌, arith, All, some, [], ◌∷◌, ◌++◌, ◌≡◌, refl, length, drop}
use d4x.Queue.{Queue, insert}
use d4x.Queue.Sort.{by_key, sort}
use d4x.Queue.Rank.{IsDigit}
use d4x.Queue.Sorted.{Ascending, sort-Ascending}
use d4x.Queue.Limit.{Bounded, Counted, excess, insert_lem}

abbrev three : Queue
three = record { items = 10 ∷ 20 ∷ 30 ∷ []; num = 3; max_num = 3; curent = 30 }

insert_lem_example :
    insert three 40
    ≡ some (record three {
      items = drop (excess three) three.items ++ 40 ∷ [];
      num = length three.items - excess three + 1;
      curent = 40;
    })
unfolding Counted
insert_lem_example = insert_lem three 40 refl

-- The numbers are 3, 2 and 1, so that the nodes are turned round.
abbrev falling : ℕ → ℕ
falling a = 4 - a / 10

sort_runs :
    sort 20 (by_key falling) three ≡ some (record three { items = 30 ∷ 20 ∷ 10 ∷ []; curent = 10 })
unfolding sort by_key
sort_runs = refl

three-Bounded : Bounded three
unfolding Bounded Counted
three-Bounded = (refl, λ h. omega arith)

three-IsDigit : All (IsDigit falling 5) three.items
unfolding IsDigit
three-IsDigit = (omega arith, (omega arith, (omega arith, tt)))

sort-Ascending_example :
    (q' : Queue) × (sort 500 (by_key falling) three ≡ some q')
    × Ascending falling q'.items
    × Perm q'.items three.items
    × Bounded q'
sort-Ascending_example =
    sort-Ascending falling 5 500 three three-Bounded three-IsDigit (omega arith)
