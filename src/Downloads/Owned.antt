-- ===== src/Downloads/Owned.antt =====
-- A download is in the list that it takes itself to be in, once, and in no other.
use d4x.Prelude.{
  ℕ, ◌+◌, ◌-◌, ◌<◌, true, false, List, [], ◌∷◌, ◌++◌, ◌≢◌, ◌==◌, if◌then◌else◌, ◌≡◌, arith,
}
use d4x.Downloads.{Downloads, add, del, insert_before, without, put_before, is_first, is_head}

-- How often a list holds a download.
abbrev pub occurs : ℕ → List ℕ → ℕ
occurs d [] = 0
occurs d (a ∷ rest) = (if d == a then 1 else 0) + occurs d rest

-- Every list holds each download once if the list is its owner, and else not at all.
unfoldable pub IsOwned : Downloads → Type 0
IsOwned s = (d o : ℕ) → 0 < o → occurs d (s.lists o) ≡ (if s.owner d == o then 1 else 0)

occurs-append :
    (d w : ℕ) (xs : List ℕ) → occurs d (xs ++ w ∷ []) ≡ occurs d xs + (if d == w then 1 else 0)
occurs-append d w [] = ground arith
occurs-append d w (a ∷ xs) = ground (arith, occurs-append d w xs)

occurs-without :
    (d w : ℕ) (xs : List ℕ) → occurs d (without w xs) ≡ occurs d xs - (if d == w then 1 else 0)
unfolding without
occurs-without d w [] = ground arith
occurs-without d w (a ∷ xs) = ground (arith, occurs-without d w xs)

occurs-put_before :
    (d w place : ℕ) (xs : List ℕ)
    → 0 < occurs place xs
    → occurs d (put_before w place xs) ≡ occurs d xs + (if d == w then 1 else 0)
unfolding put_before
occurs-put_before d w place [] h = absurd (omega arith)
occurs-put_before d w place (a ∷ xs) h = ground (arith, occurs-put_before d w place xs)

module _ (s : Downloads) (what : ℕ) (owned : IsOwned s) where
  pub add-IsOwned : (key : ℕ) → s.owner what ≡ 0 → IsOwned (add s what key)
  unfolding IsOwned add
  add-IsOwned key e d o h = ground (arith, owned d o h, occurs-append d what (s.lists o))

  pub del-IsOwned : IsOwned (del s what)
  unfolding IsOwned del
  del-IsOwned d o h = ground (arith, owned d o h, owned what o h, occurs-without d what (s.lists o))

  pub insert_before-IsOwned : (place : ℕ) → s.owner what ≡ 0 → IsOwned (insert_before s what place)
  unfolding IsOwned insert_before
  insert_before-IsOwned place e d o h =
      ground (arith, owned d o h, owned place o h, occurs-put_before d what place (s.lists o))

pub owner-del : (s : Downloads) (what : ℕ) → (del s what).owner what ≡ 0
unfolding del
owner-del s what = ground arith

is_head-occurs : (d : ℕ) (xs : List ℕ) → is_head xs d ≡ true → 0 < occurs d xs
unfolding is_head
is_head-occurs d [] h = cc
is_head-occurs d (a ∷ rest) h = ground arith

pub is_first-owner :
    (s : Downloads) (d k : ℕ) → IsOwned s → 0 < k → s.owner d ≢ k → is_first s k d ≡ false
unfolding is_first IsOwned
is_first-owner s d k h p n = ground (arith, h d k p, is_head-occurs d (s.lists k))
