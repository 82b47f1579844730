-- ===== src/Cookies/Order.antt =====
-- tCookie::cmp is an order, so that the theorems on the tree hold of the cookies.
use Prim.Native.Nat.{Ordering}
use mathlib.Core.List.{reverse}
use d4x.Prelude.{true, false, [], ◌∷◌, Bytes, ◌≡◌, refl, arith, drop}
use d4x.Cookies.{Cookie, cmp_loop, cmp_back, cookie_nodes, is_lt}
use d4x.SortTree.{IsOrder, lt}

cmp_loop-asym : (x y : Bytes) → is_lt (cmp_loop x y) ≡ true → is_lt (cmp_loop y x) ≡ false
unfolding cmp_loop is_lt
cmp_loop-asym [] [] h = refl
cmp_loop-asym [] (d ∷ y) h = refl
cmp_loop-asym (c ∷ x) [] h = cc
cmp_loop-asym (c ∷ x) (d ∷ y) h = ground (arith, cmp_loop-asym x y)

cmp_loop-neg_trans :
    (x y z : Bytes)
    → is_lt (cmp_loop y x) ≡ false
    → is_lt (cmp_loop z y) ≡ false
    → is_lt (cmp_loop z x) ≡ false
unfolding cmp_loop is_lt
cmp_loop-neg_trans [] y [] h k = refl
cmp_loop-neg_trans (c ∷ x) [] [] h k = cc
cmp_loop-neg_trans (c ∷ x) (d ∷ y) [] h k = cc
cmp_loop-neg_trans [] y (e ∷ z) h k = refl
cmp_loop-neg_trans (c ∷ x) [] (e ∷ z) h k = cc
cmp_loop-neg_trans (c ∷ x) (d ∷ y) (e ∷ z) h k = ground (arith, cmp_loop-neg_trans x y z)

pub cmp_loop-eq : (x y : Bytes) → cmp_loop x y ≡ Ordering.eq → is_lt (cmp_loop y x) ≡ false
unfolding cmp_loop is_lt
cmp_loop-eq [] [] h = refl
cmp_loop-eq [] (d ∷ y) h = refl
cmp_loop-eq (c ∷ x) [] h = cc
cmp_loop-eq (c ∷ x) (d ∷ y) h = ground (arith, cmp_loop-eq x y)

lt_of_sign : (o : Ordering) → (elim o [ Ordering.lt ↦ true | _ ↦ false ]) ≡ is_lt o
unfolding is_lt
lt_of_sign Ordering.lt = refl
lt_of_sign Ordering.eq = refl
lt_of_sign Ordering.gt = refl

pub lt-cmp_back : (a b : Cookie) → lt a b ≡ is_lt (cmp_back b.host a.host)
lt-cmp_back a b = lt_of_sign (cmp_back b.host a.host)

abbrev tail_of : Cookie → Bytes
tail_of c = reverse (drop 1 c.host)

lt-cmp_loop : (a b : Cookie) → lt a b ≡ is_lt (cmp_loop (tail_of b) (tail_of a))
unfolding cmp_back
lt-cmp_loop a b = lt-cmp_back a b

-- The order of the cookies by the ends of their hosts.
pub cookie-IsOrder : IsOrder Cookie
unfolding cmp_back
cookie-IsOrder = record {
  asym = λ a b h.
      rw (lt-cmp_loop b a) (cmp_loop-asym (tail_of b) (tail_of a) (rw (lt-cmp_loop a b) at h));
  neg_trans = λ a b c h k. rw (lt-cmp_loop a c) (
      cmp_loop-neg_trans (tail_of a) (tail_of b) (tail_of c) (rw (lt-cmp_loop a b) at h)
        (rw (lt-cmp_loop b c) at k));
  eq_lt = λ a b h. rw (lt-cmp_loop b a) (cmp_loop-eq (tail_of b) (tail_of a) h);
}
