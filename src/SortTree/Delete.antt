-- ===== src/SortTree/Delete.antt =====
-- tAbstractSortTree::del: removal from the sorted list that the tree stands for.
use d4x.Prelude.{
  ◌+◌, ◌≡◌, ◌≢◌, ◌⊎◌, refl, sym, ap, ◌∙◌, inl, inr, Bool, true, false, List, [], ◌∷◌, ◌++◌,
  append_assoc, append-nil, ◌==◌, ==_iff, All, All-append, All-append_left, All-append_right,
  All-map, length, arith, Bool-cases,
}
use d4x.SortTree.{Nodes, lt, IsOrder, Tree, leaf, node, SortTree, simple_add, replace, remove, del}
use d4x.SortTree.InOrder.{to_list, Ordered, Fresh, Distinct, erase, IsTree}
use d4x.SortTree.Add.{lt_of_le_lt}

module _ {ℓ} {A : Type ℓ} ⦃n : Nodes A⦄ where
  to_list-attach :
      (t l m : Tree A) (r : A)
      → All (λ a. lt a r ≡ true) (to_list t)
      → to_list (simple_add t r l m) ≡ to_list t ++ (to_list l ++ r ∷ to_list m)
  unfolding simple_add
  to_list-attach leaf l m r h = refl
  to_list-attach (node tl a tm) l m r h =
      let (p, hm) = All-append_right _ (to_list tl) (a ∷ to_list tm) h in
      rw (p, to_list-attach tm l m r hm)
        (sym (append_assoc (to_list tl) (a ∷ to_list tm) (to_list l ++ r ∷ to_list m)))

  attach-Ordered :
      (t l m : Tree A) (r : A)
      → All (λ a. lt a r ≡ true) (to_list t)
      → Ordered t
      → Ordered (node l r m)
      → All (λ a. All (λ b. lt a b ≡ true) (to_list (node l r m))) (to_list t)
      → Ordered (simple_add t r l m)
  unfolding simple_add
  attach-Ordered leaf l m r h o q below = q
  attach-Ordered (node tl a tm) l m r h (hl, hm, ol, om) q below =
      let (p, hm') = All-append_right _ (to_list tl) (a ∷ to_list tm) h in
      let (b, bm) = All-append_right _ (to_list tl) (a ∷ to_list tm) below in
      rw p (
        hl,
        rw (to_list-attach tm l m r hm') (All-append _ (to_list tm) _ hm b),
        ol,
        attach-Ordered tm l m r hm' om q bm,
      )

  -- erase
  erase-Fresh : (x : A) (l : List A) → Fresh x l → erase x l ≡ l
  erase-Fresh x [] h = refl
  erase-Fresh x (a ∷ l) (p, h) = ground (arith, erase-Fresh x l h)

  erase_left : (x : A) (l r : List A) → Fresh x r → erase x (l ++ r) ≡ erase x l ++ r
  erase_left x [] r h = erase-Fresh x r h
  erase_left x (a ∷ l) r h = elim (Bool-cases (n.addr a == n.addr x)) [
    | inl e ↦ rw e
    | inr e ↦ rw e (ap (λ u. a ∷ u) (erase_left x l r h))
  ]

  erase_right : (x : A) (l r : List A) → Fresh x l → erase x (l ++ r) ≡ l ++ erase x r
  erase_right x [] r h = refl
  erase_right x (a ∷ l) r (p, h) = ground (arith, erase_right x l r h)

  All-erase {κ} : (P : A → Type κ) (x : A) (l : List A) → All P l → All P (erase x l)
  All-erase P x [] h = tt
  All-erase P x (a ∷ l) (p, h) = elim (Bool-cases (n.addr a == n.addr x)) [
    | inl e ↦ rw e h
    | inr e ↦ rw e (p, All-erase P x l h)
  ]

  Fresh-left : (x a : A) (l r : List A) → Distinct (l ++ a ∷ r) → n.addr a ≡ n.addr x → Fresh x l
  Fresh-left x a [] r d e = tt
  Fresh-left x a (b ∷ l) r (f, d) e =
      (λ h. (All-append_right' l f) (e ∙ sym h), Fresh-left x a l r d e)
    where
      All-append_right' : (l : List A) → Fresh b (l ++ a ∷ r) → n.addr a ≢ n.addr b
      All-append_right' [] f = f.0
      All-append_right' (c ∷ l) f = All-append_right' l f.1

  Distinct-left : (l r : List A) → Distinct (l ++ r) → Distinct l
  Distinct-left [] r d = tt
  Distinct-left (a ∷ l) r (f, d) = (Fresh-append l f, Distinct-left l r d)
    where
      Fresh-append : (l : List A) → Fresh a (l ++ r) → Fresh a l
      Fresh-append [] f = tt
      Fresh-append (b ∷ l) (p, f) = (p, Fresh-append l f)

  Distinct-right : (l r : List A) → Distinct (l ++ r) → Distinct r
  Distinct-right [] r d = d
  Distinct-right (a ∷ l) r (f, d) = Distinct-right l r d

  -- The object that stands at the address of `x`, if any, is `x`.
  abbrev pub Genuine : A → List A → Type ℓ
  Genuine x = All (λ a. n.addr a ≡ n.addr x → a ≡ x)

  Fresh-of_side :
      (x : A) (l : List A) (f : A → Bool) (b : Bool)
      → All (λ a. f a ≡ b) l
      → f x ≢ b
      → Genuine x l
      → Fresh x l
  Fresh-of_side x [] f b h k g = tt
  Fresh-of_side x (a ∷ l) f b (p, h) k (q, g) =
      (λ e. k (ap f (sym (q e)) ∙ p), Fresh-of_side x l f b h k g)

module _ {ℓ} {A : Type ℓ} ⦃n : Nodes A⦄ where
  -- Is there an object at the address of `x`?
  abbrev pub Holds : A → List A → Type 0
  Holds x [] = ⊥
  Holds x (a ∷ l) = (n.addr a ≡ n.addr x) ⊎ Holds x l

-- The facts about one removal, for a tree in order whose objects have distinct addresses.
module _ {ℓ} {A : Type ℓ} ⦃n : Nodes A⦄ (o : IsOrder A) where
  to_list-replace :
      (l m : Tree A) (a : A)
      → All (λ b. lt a b ≡ false) (to_list l)
      → All (λ b. lt a b ≡ true) (to_list m)
      → to_list (replace l m) ≡ to_list l ++ to_list m
  unfolding replace
  to_list-replace l leaf a hl hm = sym (append-nil (to_list l))
  to_list-replace l (node ml r mm) a hl hm = to_list-attach l ml mm r (
      All-map _ _ (to_list l)
        (λ b p. lt_of_le_lt o a b r p (All-append_right _ (to_list ml) (r ∷ to_list mm) hm).0) hl)

  replace-Ordered :
      (l m : Tree A) (a : A)
      → All (λ b. lt a b ≡ false) (to_list l)
      → All (λ b. lt a b ≡ true) (to_list m)
      → Ordered l
      → Ordered m
      → Ordered (replace l m)
  unfolding replace
  replace-Ordered l leaf a hl hm ol om = ol
  replace-Ordered l (node ml r mm) a hl hm ol om =
      attach-Ordered l ml mm r
        (All-map _ _ (to_list l)
          (λ b p. lt_of_le_lt o a b r p (All-append_right _ (to_list ml) (r ∷ to_list mm) hm).0) hl)
        ol om
        (All-map _ _ (to_list l)
          (λ b p. All-map _ _ (to_list (node ml r mm)) (λ c q. lt_of_le_lt o a b c p q) hm) hl)

  to_list-remove :
      (t : Tree A) (x : A)
      → Ordered t
      → Distinct (to_list t)
      → Genuine x (to_list t)
      → to_list (remove t x) ≡ erase x (to_list t)
  unfolding remove
  to_list-remove leaf x h d g = refl
  to_list-remove (node l a m) x (hl, hm, ol, om) d g =
      let gl = All-append_left _ (to_list l) (a ∷ to_list m) g in
      let (ga, gm) = All-append_right _ (to_list l) (a ∷ to_list m) g in
      elim (Bool-cases (n.addr a == n.addr x)) [
        | inl e ↦ rw (
          e,
          to_list-replace l m a hl hm,
          erase_right x (to_list l) (a ∷ to_list m)
              (Fresh-left x a (to_list l) (to_list m) d ((==_iff _ _).0 e)),
          e,
        )
        | inr e ↦ rw e (elim (Bool-cases (lt a x)) [
          | inl p ↦ rw (
            p,
            to_list-remove m x om (Distinct-right (to_list l) (a ∷ to_list m) d).1 gm,
            erase_right x (to_list l) (a ∷ to_list m)
                (Fresh-of_side x (to_list l) (λ b. lt a b) false hl (λ q. cc) gl),
            e,
          )
          | inr p ↦ rw (
            p,
            to_list-remove l x ol (Distinct-left (to_list l) (a ∷ to_list m) d) gl,
            erase_left x (to_list l) (a ∷ to_list m)
                (ground arith, Fresh-of_side x (to_list m) (λ b. lt a b) true hm (λ q. cc) gm),
          )
        ])
      ]

  remove-Ordered :
      (t : Tree A) (x : A)
      → Ordered t
      → Distinct (to_list t)
      → Genuine x (to_list t)
      → Ordered (remove t x)
  unfolding remove
  remove-Ordered leaf x h d g = tt
  remove-Ordered (node l a m) x (hl, hm, ol, om) d g =
      let gl = All-append_left _ (to_list l) (a ∷ to_list m) g in
      let (ga, gm) = All-append_right _ (to_list l) (a ∷ to_list m) g in
      let dl = Distinct-left (to_list l) (a ∷ to_list m) d in
      let dm = (Distinct-right (to_list l) (a ∷ to_list m) d).1 in
      elim (Bool-cases (n.addr a == n.addr x)) [
        | inl e ↦ rw e (replace-Ordered l m a hl hm ol om)
        | inr e ↦ rw e (elim (Bool-cases (lt a x)) [
          | inl p ↦ rw p (
            hl,
            rw (to_list-remove m x om dm gm) (All-erase _ x (to_list m) hm),
            ol,
            remove-Ordered m x om dm gm,
          )
          | inr p ↦ rw p (
            rw (to_list-remove l x ol dl gl) (All-erase _ x (to_list l) hl),
            hm,
            remove-Ordered l x ol dl gl,
            om,
          )
        ])
      ]

  length-erase : (x : A) (l : List A) → Holds x l → length (erase x l) + 1 ≡ length l
  length-erase x [] h = absurd h
  length-erase x (a ∷ l) h = elim (Bool-cases (n.addr a == n.addr x)) [
    | inl e ↦ rw e (omega arith)
    | inr e ↦
        rw e (elim h [ inl p ↦ absurd (ground arith) | inr q ↦ omega (arith, length-erase x l q) ])
  ]

  -- If `cmp` is an order and the objects of a valid tree have distinct addresses, then deleting an
  -- object that the tree holds gives a valid tree, and `foreach` visits the other objects in their order.
  pub del-erase :
      (t : SortTree A) (x : A)
      → IsTree t
      → Distinct (to_list t.top)
      → Genuine x (to_list t.top)
      → Holds x (to_list t.top)
      → IsTree (del t x) × (to_list (del t x).top ≡ erase x (to_list t.top))
  unfolding del
  del-erase t x h d g k =
      let e = to_list-remove t.top x h.ordered d g in
      (
        record {
          ordered = remove-Ordered t.top x h.ordered d g;
          counted = rw e (omega (arith, h.counted, length-erase x (to_list t.top) k));
        },
        e,
      )
