-- ===== src/SortTree/Add.antt =====
-- tAbstractSortTree::add: insertion into the sorted list that the tree stands for.
use d4x.Prelude.{
  ◌+◌, ◌≡◌, refl, sym, ap, ◌∙◌, inl, inr, true, false, List, [], ◌∷◌, ◌++◌, All, All-append,
  All-map, length, arith, Bool-cases,
}
use d4x.SortTree.{Nodes, lt, IsOrder, Tree, leaf, node, SortTree, simple_add, add}
use d4x.SortTree.InOrder.{to_list, Ordered, Sorted, insort, IsTree}

module _ {ℓ} {A : Type ℓ} ⦃n : Nodes A⦄ where
  insort_skip :
      (x : A) (l r : List A) → All (λ a. lt a x ≡ true) l → insort x (l ++ r) ≡ l ++ insort x r
  insort_skip x [] r h = refl
  insort_skip x (a ∷ l) r (p, h) = rw p (ap (λ u. a ∷ u) (insort_skip x l r h))

  insort_stop :
      (x a : A) (l r : List A) → lt a x ≡ false → insort x (l ++ a ∷ r) ≡ insort x l ++ a ∷ r
  insort_stop x a [] r h = rw h
  insort_stop x a (b ∷ l) r h = elim (Bool-cases (lt b x)) [
    | inl p ↦ rw p (ap (λ u. b ∷ u) (insort_stop x a l r h))
    | inr p ↦ rw p
  ]

  pub All-insort {κ} : (P : A → Type κ) (x : A) (l : List A) → P x → All P l → All P (insort x l)
  All-insort P x [] h q = (h, tt)
  All-insort P x (a ∷ l) h (p, q) = elim (Bool-cases (lt a x)) [
    | inl e ↦ rw e (p, All-insort P x l h q)
    | inr e ↦ rw e (h, (p, q))
  ]

  pub length-insort : (x : A) (l : List A) → length (insort x l) ≡ length l + 1
  length-insort x [] = omega arith
  length-insort x (a ∷ l) = elim (Bool-cases (lt a x)) [
    | inl e ↦ rw e (omega (arith, length-insort x l))
    | inr e ↦ rw e (omega arith)
  ]

module _ {ℓ} {A : Type ℓ} ⦃n : Nodes A⦄ (o : IsOrder A) where
  -- What is at most `a` is less than what `a` is less than.
  pub lt_of_le_lt : (a b x : A) → lt a b ≡ false → lt a x ≡ true → lt b x ≡ true
  lt_of_le_lt a b x p q = elim (Bool-cases (lt b x)) [
    | inl h ↦ h
    | inr h ↦ cc (o.neg_trans a b x p h)
  ]

  to_list-simple_add :
      (t : Tree A) (x : A) → Ordered t → to_list (simple_add t x leaf leaf) ≡ insort x (to_list t)
  unfolding simple_add
  to_list-simple_add leaf x h = refl
  to_list-simple_add (node l a m) x (hl, hm, ol, om) = elim (Bool-cases (lt a x)) [
    | inl e ↦
        rw (e, to_list-simple_add m x om)
          (sym (
            insort_skip x (to_list l) (a ∷ to_list m)
              (All-map _ _ (to_list l) (λ b p. lt_of_le_lt a b x p e) hl)
            ∙ rw e))
    | inr e ↦ rw (e, to_list-simple_add l x ol) (sym (insort_stop x a (to_list l) (to_list m) e))
  ]

  simple_add-Ordered : (t : Tree A) (x : A) → Ordered t → Ordered (simple_add t x leaf leaf)
  unfolding simple_add
  simple_add-Ordered leaf x h = (tt, tt, tt, tt)
  simple_add-Ordered (node l a m) x (hl, hm, ol, om) = elim (Bool-cases (lt a x)) [
    | inl e ↦ rw e (
      hl,
      rw (to_list-simple_add m x om) (All-insort _ x (to_list m) e hm),
      ol,
      simple_add-Ordered m x om,
    )
    | inr e ↦ rw e (
      rw (to_list-simple_add l x ol) (All-insort _ x (to_list l) e hl),
      hm,
      simple_add-Ordered l x ol,
      om,
    )
  ]

  Sorted-append :
      (l r : List A)
      → Sorted l
      → Sorted r
      → All (λ b. All (λ c. lt c b ≡ false) r) l
      → Sorted (l ++ r)
  Sorted-append [] r hl hr h = hr
  Sorted-append (a ∷ l) r (p, hl) hr (q, h) = (All-append _ l r p q, Sorted-append l r hl hr h)

  -- The order in which `foreach` visits the objects of a search tree is sorted.
  pub to_list-Sorted : (t : Tree A) → Ordered t → Sorted (to_list t)
  to_list-Sorted leaf h = tt
  to_list-Sorted (node l a m) (hl, hm, ol, om) =
      let below : All (λ c. lt c a ≡ false) (to_list m) =
        All-map _ _ (to_list m) (λ c p. o.asym a c p) hm in
      Sorted-append (to_list l) (a ∷ to_list m) (to_list-Sorted l ol) (below, to_list-Sorted m om)
        (All-map _ _ (to_list l)
          (λ b p. (p, All-map _ _ (to_list m) (λ c q. o.neg_trans c a b (o.asym a c q) p) hm)) hl)

  -- If `cmp` is an order, then adding an object to a valid tree gives a valid tree, and `foreach` visits
  -- the old objects in their order with the new one in front of the first that is not less.
  pub add-insort :
      (t : SortTree A) (x : A)
      → IsTree t
      → IsTree (add t x) × (to_list (add t x).top ≡ insort x (to_list t.top))
  unfolding add
  add-insort t x h = (
    record {
      ordered = simple_add-Ordered t.top x h.ordered;
      counted =
          rw (to_list-simple_add t.top x h.ordered, length-insort x (to_list t.top), h.counted);
    },
    to_list-simple_add t.top x h.ordered,
  )
