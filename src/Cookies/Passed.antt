-- ===== src/Cookies/Passed.antt =====
-- What the searches for a host pass, and what they go on with.
use d4x.Prelude.{
  ℕ, zero, suc, ◌-◌, ◌≢◌, Bool, true, false, List, [], ◌∷◌, ltb, if◌then◌else◌, if_intro,
  Bool-cases, Bytes, length, drop, All, All-append, All-append_left, All-append_right, ◌≡◌, refl,
  sym, ap, ◌∙◌, inl, inr, arith,
}
use d4x.Cookies.{Cookie, cmp_back, cookie_nodes, is_lt, look, find_from, find}
use d4x.Cookies.Order.{lt-cmp_back}
use d4x.SortTree.{Tree, leaf, node, lt}
use d4x.SortTree.InOrder.{to_list, Ordered}
use d4x.Strings.{same_first}
use d4x.Strings.Case.{string_ended, string_ended_by}

same_first_refl : (n : ℕ) (a : Bytes) → same_first (λ c. c) n a a ≡ true
unfolding same_first
same_first_refl zero a = refl
same_first_refl (suc n) [] = refl
same_first_refl (suc n) (c ∷ a) = ground (arith, same_first_refl n a)

-- Every string ends with itself.
string_ended_refl : (a : Bytes) → string_ended a a ≡ true
unfolding string_ended string_ended_by
string_ended_refl a =
    let n = length a in
    let least = if ltb n n then n else n in same_first_refl least (drop (n - least) a)

pub clash : (b : Bool) → b ≡ true → b ≡ false → ⊥
clash true h k = cc
clash false h k = cc

not_ended : (a what : Bytes) → string_ended a what ≡ false → a ≢ what
not_ended a what h e =
    clash (string_ended what what) (string_ended_refl what)
      (ap (λ x. string_ended x what) (sym e) ∙ h)

module _ {ℓ} (P : Cookie → Type ℓ) (what : Bytes) where
  -- If the host is `what`.
  abbrev Q : Cookie → Type ℓ
  Q d = d.host ≡ what → P d

  left_out :
      (a : Cookie) (l : List Cookie)
      → is_lt (cmp_back what a.host) ≡ true
      → All (λ b. lt a b ≡ false) l
      → All Q l
  left_out a [] h k = tt
  left_out a (b ∷ l) h (k, ks) = (
    λ e. absurd (clash (lt a b) (lt-cmp_back a b ∙ ap (λ w. is_lt (cmp_back w a.host)) e ∙ h) k),
    left_out a l h ks,
  )

  right_out :
      (a : Cookie) (l : List Cookie)
      → is_lt (cmp_back what a.host) ≡ false
      → All (λ b. lt a b ≡ true) l
      → All Q l
  right_out a [] h k = tt
  right_out a (b ∷ l) h (k, ks) = (
    λ e. absurd (clash (lt a b) k (lt-cmp_back a b ∙ ap (λ w. is_lt (cmp_back w a.host)) e ∙ h)),
    right_out a l h ks,
  )

  -- The side of a cookie to which the search goes has all cookies of the host that are below it.
  side-covers :
      (l : Tree Cookie) (a : Cookie) (m : Tree Cookie)
      → Ordered (node l a m)
      → Q a
      → All Q (to_list (if is_lt (cmp_back what a.host) then m else l))
      → All Q (to_list (node l a m))
  side-covers l a m (hl, hm, ol, om) q h = elim (Bool-cases (is_lt (cmp_back what a.host))) [
    | inl e ↦ All-append Q (to_list l) (a ∷ to_list m) (left_out a (to_list l) e hl) (q, rw e at h)
    | inr e ↦ All-append Q (to_list l) (a ∷ to_list m) (rw e at h) (q, right_out a (to_list m) e hm)
  ]

  -- What find passes without returning it are no cookies of the host.
  pub look-covers :
      (t : Tree Cookie) → Ordered t → All Q (to_list (look t what)) → All Q (to_list t)
  unfolding look
  look-covers leaf o h = tt
  look-covers (node l a m) (hl, hm, ol, om) h = elim (Bool-cases (string_ended a.host what)) [
    | inl e ↦ rw e at h
    | inr e ↦
        let q : Q a = λ same. absurd (not_ended a.host what e same) in
        side-covers l a m (hl, hm, ol, om) q
          (elim (Bool-cases (is_lt (cmp_back what a.host))) [
            | inl less ↦ rw less (look-covers m om (rw (e, less) at h))
            | inr less ↦ rw less (look-covers l ol (rw (e, less) at h))
          ])
  ]

  pub find_from-covers :
      (l : Tree Cookie) (a : Cookie) (m : Tree Cookie)
      → Ordered (node l a m)
      → Q a
      → All Q (to_list (find_from (node l a m) what))
      → All Q (to_list (node l a m))
  unfolding find_from
  find_from-covers l a m (hl, hm, ol, om) q h =
      side-covers l a m (hl, hm, ol, om) q
        (elim (Bool-cases (is_lt (cmp_back what a.host))) [
          | inl less ↦ rw less (look-covers m om (rw less at h))
          | inr less ↦ rw less (look-covers l ol (rw less at h))
        ])

  pub find-covers :
      (t : Tree Cookie) → Ordered t → All Q (to_list (find t what)) → All Q (to_list t)
  unfolding find
  find-covers leaf o h = tt
  find-covers (node l a m) o h = elim (Bool-cases (string_ended a.host what)) [
    | inl e ↦ rw e at h
    | inr e ↦ find_from-covers l a m o (λ same. absurd (not_ended a.host what e same)) (rw e at h)
  ]

  -- What the search goes on with is in the tree.
  unfoldable pub Within : Tree Cookie → Type ℓ
  Within t = All P (to_list t)

  look-Within : (t : Tree Cookie) → Within t → Within (look t what)
  unfolding look Within
  look-Within leaf h = tt
  look-Within (node l a m) h =
      let less = All-append_left P (to_list l) (a ∷ to_list m) h in
      let (here, more) = All-append_right P (to_list l) (a ∷ to_list m) h in
      if_intro Within (string_ended a.host what) (λ _. h)
        (λ _.
          if_intro Within (is_lt (cmp_back what a.host)) (λ _. look-Within m more)
            (λ _. look-Within l less))

  pub find_from-Within : (t : Tree Cookie) → Within t → Within (find_from t what)
  unfolding find_from Within
  find_from-Within leaf h = tt
  find_from-Within (node l a m) h =
      let less = All-append_left P (to_list l) (a ∷ to_list m) h in
      let (here, more) = All-append_right P (to_list l) (a ∷ to_list m) h in
      look-Within (if is_lt (cmp_back what a.host) then m else l)
        (if_intro Within (is_lt (cmp_back what a.host)) (λ _. more) (λ _. less))

  pub find-Within : (t : Tree Cookie) → Within t → Within (find t what)
  unfolding find Within
  find-Within leaf h = tt
  find-Within (node l a m) h =
      if_intro Within (string_ended a.host what) (λ _. h) (λ _. find_from-Within (node l a m) h)
