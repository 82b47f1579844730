-- ===== src/SortTree/Tests.antt =====
-- Runs of the methods of tSortTree, and the theorems at concrete trees.

use d4x.Prelude.{ℕ, ◌≡◌, refl, [], ◌∷◌, arith}
use d4x.SortTree.{SortNode, sort_nodes, leaf, node, SortTree, add, del}
use d4x.SortTree.InOrder.{to_list, insort, erase, IsTree}
use d4x.SortTree.Keys.{sort-IsOrder}
use d4x.SortTree.Add.{add-insort}
use d4x.SortTree.Delete.{del-erase}

abbrev key : ℕ → ℕ → SortNode
key p k = record { at = p; key = k }

abbrev tree : SortTree SortNode
tree = record {
  top =
      node (node leaf (key 2 10) (node leaf (key 4 20) leaf)) (key 1 30)
        (node leaf (key 3 40) leaf);
  num = 4;
}

tree-IsTree : IsTree tree
tree-IsTree = record { ordered = ground arith; counted = refl }

add_equal :
    to_list (add tree (key 5 30)).top ≡ key 2 10 ∷ key 4 20 ∷ key 5 30 ∷ key 1 30 ∷ key 3 40 ∷ []
unfolding add
add_equal = refl

del_top :
    (del tree (key 1 30)).top
    ≡ node leaf (key 2 10) (node leaf (key 4 20) (node leaf (key 3 40) leaf))
unfolding del
del_top = refl

add-insort_example :
    IsTree (add tree (key 5 25))
    × (to_list (add tree (key 5 25)).top ≡ insort (key 5 25) (to_list tree.top))
add-insort_example = add-insort sort-IsOrder tree (key 5 25) tree-IsTree

del-erase_example :
    IsTree (del tree (key 2 10))
    × (to_list (del tree (key 2 10)).top ≡ erase (key 2 10) (to_list tree.top))
del-erase_example =
    del-erase sort-IsOrder tree (key 2 10) tree-IsTree (omega arith) (ground arith) (omega arith)
