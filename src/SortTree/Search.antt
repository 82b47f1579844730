-- ===== src/SortTree/Search.antt =====
-- tAbstractSortTree::find and ::max against the list that the tree stands for.
use d4x.Prelude.{
  ◌≡◌, ◌≢◌, refl, sym, ◌∙◌, inl, inr, true, false, Option, none, some, List, [], ◌∷◌, ◌++◌, All,
  All-append, All-map, Bool-cases,
}
use Prim.Native.Nat.{Ordering}
use d4x.SortTree.{Nodes, lt, IsOrder, Tree, leaf, node, SortTree, find_in, find, max_from, max_of}
use d4x.SortTree.InOrder.{to_list, Ordered, Sorted, IsTree}
use d4x.SortTree.Add.{to_list-Sorted}

-- The last object that `foreach` visits.
abbrev pub last? {ℓ} : {A : Type ℓ} → List A → Option A
last? [] = none
last? (a ∷ []) = some a
last? (a ∷ b ∷ l) = last? (b ∷ l)

last?-append {ℓ} :
    {A : Type ℓ} (l : List A) (a : A) (r : List A) → last? (l ++ a ∷ r) ≡ last? (a ∷ r)
last?-append [] a r = refl
last?-append (b ∷ []) a r = refl
last?-append (b ∷ c ∷ l) a r = last?-append (c ∷ l) a r

max_from-last? {ℓ} : {A : Type ℓ} (a : A) (m : Tree A) → some (max_from a m) ≡ last? (a ∷ to_list m)
unfolding max_from
max_from-last? a leaf = refl
max_from-last? a (node l b m) =
    max_from-last? b m ∙ sym (last?-append (a ∷ to_list l) b (to_list m))

pub max_of-last? {ℓ} : {A : Type ℓ} (t : Tree A) → max_of t ≡ last? (to_list t)
unfolding max_of
max_of-last? leaf = refl
max_of-last? (node l a m) = max_from-last? a m ∙ sym (last?-append (to_list l) a (to_list m))

module _ {ℓ} {A : Type ℓ} ⦃n : Nodes A⦄ where
  -- No object of the list compares equal to `x`.
  abbrev pub NoneEqual : A → List A → Type 0
  NoneEqual x = All (λ a. n.cmp a x ≢ Ordering.eq)

pub data Occurs {ℓ} {A : Type ℓ} (x : A) : List A → Type ℓ where
  here : {a : A} {l : List A} → a ≡ x → Occurs x (a ∷ l)
  there : {a : A} {l : List A} → Occurs x l → Occurs x (a ∷ l)

Occurs-append_left {ℓ} :
    {A : Type ℓ} {x : A} {l : List A} (r : List A) → Occurs x l → Occurs x (l ++ r)
Occurs-append_left r (here e) = here e
Occurs-append_left r (there h) = there (Occurs-append_left r h)

Occurs-append_right {ℓ} :
    {A : Type ℓ} {x : A} (l : List A) {r : List A} → Occurs x r → Occurs x (l ++ r)
Occurs-append_right [] h = h
Occurs-append_right (a ∷ l) h = there (Occurs-append_right l h)

-- Every object of a list occurs in it.
pub All-Occurs {ℓ} : {A : Type ℓ} (l : List A) → All (λ a. Occurs a l) l
All-Occurs [] = tt
All-Occurs (a ∷ l) =
    (here refl, All-map (λ b. Occurs b l) (λ b. Occurs b (a ∷ l)) l (λ b h. there h) (All-Occurs l))

module _ {ℓ} {A : Type ℓ} ⦃n : Nodes A⦄ where
  find_in_sound :
      (t : Tree A) (x a : A)
      → find_in t x ≡ some a
      → Occurs a (to_list t) × (n.cmp a x ≡ Ordering.eq)
  unfolding find_in
  find_in_sound leaf x a h = cc
  find_in_sound (node l b m) x a h =
      go (n.cmp b x) refl h (find_in_sound l x a) (find_in_sound m x a)
    where
      Found : List A → Type ℓ
      Found k = Occurs a k × (n.cmp a x ≡ Ordering.eq)

      go :
          (c : Ordering)
          → n.cmp b x ≡ c
          → ◌≡◌ {A = Option A}
              (elim c [
                | Ordering.lt ↦ find_in m x
                | Ordering.eq ↦ some b
                | Ordering.gt ↦ find_in l x
              ])
              (some a)
          → (find_in l x ≡ some a → Found (to_list l))
          → (find_in m x ≡ some a → Found (to_list m))
          → Found (to_list l ++ b ∷ to_list m)
      go Ordering.lt e k hl hm = let (p, q) = hm k in (Occurs-append_right (to_list l) (there p), q)
      go Ordering.eq e k hl hm =
          let s : b ≡ a = cc in (Occurs-append_right (to_list l) (here s), rw (← s) e)
      go Ordering.gt e k hl hm = let (p, q) = hl k in (Occurs-append_left _ p, q)

module _ {ℓ} {A : Type ℓ} ⦃n : Nodes A⦄ (o : IsOrder A) where
  below_unequal : (a b x : A) → lt b a ≡ false → n.cmp b x ≡ Ordering.lt → n.cmp a x ≢ Ordering.eq
  below_unequal a b x p q e =
      let r : lt a x ≡ false = rw (e, lt) in
      let s : lt b x ≡ true = rw (q, lt) in cc (o.neg_trans b a x p r)

  above_unequal : (a b x : A) → lt b a ≡ true → n.cmp b x ≡ Ordering.gt → n.cmp a x ≢ Ordering.eq
  above_unequal a b x p q e =
      let s : lt b x ≡ false = rw (q, lt) in cc (o.neg_trans b x a s (o.eq_lt a x e))

  find_in-none : (t : Tree A) (x : A) → Ordered t → find_in t x ≡ none → NoneEqual x (to_list t)
  unfolding find_in
  find_in-none leaf x h e = tt
  find_in-none (node l b m) x (hl, hm, ol, om) h =
      go (n.cmp b x) refl h (find_in-none l x ol) (find_in-none m x om)
    where
      go :
          (c : Ordering)
          → n.cmp b x ≡ c
          → ◌≡◌ {A = Option A}
              (elim c [
                | Ordering.lt ↦ find_in m x
                | Ordering.eq ↦ some b
                | Ordering.gt ↦ find_in l x
              ])
              none
          → (find_in l x ≡ none → NoneEqual x (to_list l))
          → (find_in m x ≡ none → NoneEqual x (to_list m))
          → NoneEqual x (to_list l ++ b ∷ to_list m)
      go Ordering.lt e k il im =
          All-append _ (to_list l) (b ∷ to_list m)
            (All-map _ _ (to_list l) (λ a p. below_unequal a b x p e) hl) (λ q. cc, im k)
      go Ordering.eq e k il im = cc
      go Ordering.gt e k il im =
          All-append _ (to_list l) (b ∷ to_list m) (il k)
            (λ q. cc, All-map _ _ (to_list m) (λ a p. above_unequal a b x p e) hm)

  -- If `cmp` is an order, then in a valid tree `find` returns an object of the tree that compares
  -- equal to the one searched for, or NULL if no object of the tree does.
  pub find_lem :
      (t : SortTree A) (x : A)
      → IsTree t
      → ((a : A) → find t x ≡ some a → Occurs a (to_list t.top) × (n.cmp a x ≡ Ordering.eq))
        × (find t x ≡ none → NoneEqual x (to_list t.top))
  unfolding find
  find_lem t x h = (find_in_sound t.top x, find_in-none t.top x h.ordered)

  All-last {κ} : (P : A → Type κ) (l : List A) (a : A) → All P l → last? l ≡ some a → P a
  All-last P [] a h e = cc
  All-last P (b ∷ []) a (p, h) e = let s : b ≡ a = cc in rw (← s) p
  All-last P (b ∷ c ∷ l) a (p, h) e = All-last P (c ∷ l) a h e

  All-below_last : (l : List A) (a : A) → Sorted l → last? l ≡ some a → All (λ b. lt a b ≡ false) l
  All-below_last [] a h e = tt
  All-below_last (b ∷ []) a h e = let s : b ≡ a = cc in (rw s (irrefl a), tt)
    where
      irrefl : (a : A) → lt a a ≡ false
      irrefl a = elim (Bool-cases (lt a a)) [ inl p ↦ o.asym a a p | inr p ↦ p ]
  All-below_last (b ∷ c ∷ l) a (p, h) e = (All-last _ (c ∷ l) a p e, All-below_last (c ∷ l) a h e)

  -- If `cmp` is an order, then in a valid tree that is not empty `max` returns an object that is less
  -- than no object of the tree, the last that `foreach` visits; in an empty tree it returns NULL.
  pub max_lem :
      (t : SortTree A)
      → IsTree t
      → (max_of t.top ≡ last? (to_list t.top))
        × ((a : A) → max_of t.top ≡ some a → All (λ b. lt a b ≡ false) (to_list t.top))
  max_lem t h = (
    max_of-last? t.top,
    λ a e.
        All-below_last (to_list t.top) a (to_list-Sorted o t.top h.ordered)
          (sym (max_of-last? t.top) ∙ e),
  )
