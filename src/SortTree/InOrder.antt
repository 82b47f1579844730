-- ===== src/SortTree/InOrder.antt =====
-- The objects of a tree in the order in which tAbstractSortTree::foreach visits them, and the
-- sorted list that a tree stands for.
use mathlib.Core.List.{foldl, foldl-append}
use d4x.Prelude.{
  ◌≡◌, ◌≢◌, refl, sym, ap, ◌∙◌, true, false, List, [], ◌∷◌, ◌++◌, ◌==◌, if◌then◌else◌, All, length,
}
use d4x.SortTree.{Nodes, lt, Tree, leaf, node, SortTree, foreach_rec}

abbrev pub to_list {ℓ} : {A : Type ℓ} → Tree A → List A
to_list leaf = []
to_list (node l a m) = to_list l ++ a ∷ to_list m

module _ {ℓ} {A : Type ℓ} ⦃n : Nodes A⦄ where
  -- No object is less than one before it.
  abbrev pub Sorted : List A → Type ℓ
  Sorted [] = Unit
  Sorted (a ∷ l) = All (λ b. lt b a ≡ false) l × Sorted l

  -- The search order: what is left of an object is not above it, what is right of it is.
  abbrev pub Ordered : Tree A → Type ℓ
  Ordered leaf = Unit
  Ordered (node l a m) =
      All (λ b. lt a b ≡ false) (to_list l)
      × All (λ b. lt a b ≡ true) (to_list m)
      × Ordered l
      × Ordered m

  -- Insertion into a sorted list, before the objects that are not less.
  abbrev pub insort : A → List A → List A
  insort x [] = x ∷ []
  insort x (a ∷ l) = if lt a x then a ∷ insort x l else x ∷ a ∷ l

  abbrev pub Fresh : A → List A → Type 0
  Fresh x [] = Unit
  Fresh x (a ∷ l) = (n.addr a ≢ n.addr x) × Fresh x l

  -- No two objects of the list have one address.
  abbrev pub Distinct : List A → Type 0
  Distinct [] = Unit
  Distinct (a ∷ l) = Fresh a l × Distinct l

  -- The list without the object at the address of `x`.
  abbrev pub erase : A → List A → List A
  erase x [] = []
  erase x (a ∷ l) = if n.addr a == n.addr x then l else a ∷ erase x l

-- The objects are in search order, and `NUM` is their number.
pub record IsTree {ℓ} {A : Type ℓ} ⦃n : Nodes A⦄ (t : SortTree A) : Type ℓ where
  pub ordered : Ordered t.top
  pub counted : t.num ≡ length (to_list t.top)

-- `foreach` is a fold over the objects in order.
pub foreach_rec-foldl {ℓ κ} :
    {A : Type ℓ} {S : Type κ} (t : Tree A) (doit : A → S → S) (s : S)
    → foreach_rec t doit s ≡ foldl (λ u a. doit a u) s (to_list t)
unfolding foreach_rec
foreach_rec-foldl leaf doit s = refl
foreach_rec-foldl (node l a m) doit s =
    ap (λ u. foreach_rec m doit (doit a u)) (foreach_rec-foldl l doit s)
    ∙ foreach_rec-foldl m doit _
    ∙ sym (foldl-append _ _ (to_list l) (a ∷ to_list m))
