-- ===== src/SortTree/Keys.antt =====
-- tSortNode::cmp is an order: it compares the keys.

use d4x.Prelude.{arith}
use d4x.SortTree.{IsOrder, SortNode, sort_nodes}

pub sort-IsOrder : IsOrder SortNode
sort-IsOrder = record {
  asym = λ a b h. ground arith;
  neg_trans = λ a b c h k. ground arith;
  eq_lt = λ a b h. ground arith;
}
