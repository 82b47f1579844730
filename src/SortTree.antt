-- ===== src/SortTree.antt =====
-- main/sort.cc: tAbstractSortTree, the binary tree behind the speed meter and the cookies.
-- A node is what the tree holds of the caller's object; `less` and `more` are its subtrees. The
-- order is the virtual method `cmp`, the interface `Nodes`. The children prove what the methods do.
pub mod InOrder
pub mod Add
mod Delete
pub mod Search
pub mod Keys
mod Tests
use Prim.Native.Nat.{compare, Ordering}
use d4x.Prelude.{
  ℕ, suc, ◌+◌, ◌-◌, ◌≡◌, Bool, true, false, Option, none, some, List, [], ◌∷◌, ◌++◌, ◌==◌,
  if◌then◌else◌,
}

-- The objects of a tree: the sign of `cmp`, and the address by which `del` knows an object.
pub record Nodes {ℓ} (A : Type ℓ) : Type ℓ where
  pub cmp : A → A → Ordering
  pub addr : A → ℕ

abbrev pub lt {ℓ} : {A : Type ℓ} ⦃n : Nodes A⦄ → A → A → Bool
lt ⦃n⦄ a b = elim (n.cmp a b) [ Ordering.lt ↦ true | _ ↦ false ]

-- What the tree needs of `cmp`: `cmp(a,b)<0` is a strict order in which incomparable objects can
-- stand for each other, and 0 means that neither is less.
pub record IsOrder {ℓ} (A : Type ℓ) ⦃n : Nodes A⦄ : Type ℓ where
  pub asym : (a b : A) → lt a b ≡ true → lt b a ≡ false
  pub neg_trans : (a b c : A) → lt a b ≡ false → lt b c ≡ false → lt a c ≡ false
  pub eq_lt : (a b : A) → n.cmp a b ≡ Ordering.eq → lt b a ≡ false

pub data Tree {ℓ} (A : Type ℓ) : Type ℓ where
  leaf : Tree A
  node : Tree A → A → Tree A → Tree A

-- tAbstractSortTree: `Top` and `NUM`.
pub record SortTree {ℓ} (A : Type ℓ) : Type ℓ where
  pub top : Tree A
  pub num : ℕ

module _ {ℓ} {A : Type ℓ} ⦃n : Nodes A⦄ where
  -- tAbstractSortTree::simple_add of the object `what` with the subtrees `wl` and `wm` below it.
  pub simple_add : Tree A → A → Tree A → Tree A → Tree A
  simple_add leaf what wl wm = node wl what wm
  simple_add (node l a m) what wl wm =
      if lt a what then node l a (simple_add m what wl wm) else node (simple_add l what wl wm) a m

  -- tAbstractSortTree::add: the new object has no subtrees.
  unfoldable pub add : SortTree A → A → SortTree A
  unfolding simple_add
  add t what = record { top = simple_add t.top what leaf leaf; num = t.num + 1 }

  -- What replaces a removed object: its `less` subtree, with its `more` subtree added to that.
  pub replace : Tree A → Tree A → Tree A
  unfolding simple_add
  replace l leaf = l
  replace l (node ml r mm) = simple_add l r ml mm

  -- The search of `del`, and the removal at its end. An object that the tree does not hold has no
  -- subtrees, so that the empty place stays empty.
  pub remove : Tree A → A → Tree A
  unfolding replace
  remove leaf what = leaf
  remove (node l a m) what =
      if n.addr a == n.addr what
      then replace l m
      else if lt a what
      then node l a (remove m what)
      else node (remove l what) a m

  -- tAbstractSortTree::del
  pub del : SortTree A → A → SortTree A
  unfolding remove
  del t what = record { top = remove t.top what; num = t.num - 1 }

  -- The loop of tAbstractSortTree::find.
  pub find_in : Tree A → A → Option A
  find_in leaf what = none
  find_in (node l a m) what = elim (n.cmp a what) [
    | Ordering.lt ↦ find_in m what
    | Ordering.eq ↦ some a
    | Ordering.gt ↦ find_in l what
  ]

  pub find : SortTree A → A → Option A
  unfolding find_in
  find t what = find_in t.top what

-- The loop of tAbstractSortTree::max, at the object `a` with the `more` subtree given.
pub max_from {ℓ} : {A : Type ℓ} → A → Tree A → A
max_from a leaf = a
max_from a (node l b m) = max_from b m

pub max_of {ℓ} : {A : Type ℓ} → Tree A → Option A
unfolding max_from
max_of leaf = none
max_of (node l a m) = some (max_from a m)

-- tAbstractSortTree::foreach_rec, for a `doit` that changes a state and leaves the tree alone.
pub foreach_rec {ℓ κ} : {A : Type ℓ} {S : Type κ} → Tree A → (A → S → S) → S → S
foreach_rec leaf doit s = s
foreach_rec (node l a m) doit s = foreach_rec m doit (doit a (foreach_rec l doit s))

pub empty {ℓ} : {A : Type ℓ} → SortTree A → Bool
empty t = elim t.top [ leaf ↦ true | node l a m ↦ false ]

-- tSortNode: the key is what `cmp` compares. Keys below 2 ^ 31 differ by an int.
pub record SortNode : Type 0 where
  pub at : ℕ
  pub key : ℕ

instance abbrev pub sort_nodes : Nodes SortNode
sort_nodes = record { cmp = λ a b. compare a.key b.key; addr = λ a. a.at }
