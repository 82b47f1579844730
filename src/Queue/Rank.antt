-- ===== src/Queue/Rank.antt =====
-- The numbers of the nodes of a queue as the digits of one number, its rank.

use native.Mathlib.Nat.{mul-le-mul_right, pow-suc, pow-zero}
use d4x.Prelude.{
  ℕ, suc, ◌+◌, ◌*◌, ◌^◌, ◌<◌, List, [], ◌∷◌, ◌++◌, length, length-append, All, ◌≡◌, arith,
}

module _ (key : ℕ → ℕ) (base : ℕ) where
  -- The numbers of the nodes as the digits of a number.
  unfoldable pub rank : List ℕ → ℕ
  rank [] = 0
  rank (a ∷ nodes) = key a * base ^ length nodes + rank nodes

  unfoldable pub IsDigit : ℕ → Type 0
  IsDigit a = key a < base

  pub rank-lt : (nodes : List ℕ) → All IsDigit nodes → rank nodes < base ^ length nodes
  unfolding rank IsDigit
  rank-lt [] h = omega (arith, pow-zero base)
  rank-lt (a ∷ nodes) (h, hs) = omega (
    arith,
    mul-le-mul_right (base ^ length nodes) h,
    rank-lt nodes hs,
    pow-suc base (length nodes),
  )

  -- A queue whose first nodes are the same is less if the others are.
  pub rank-append :
      (passed xs ys : List ℕ)
      → length xs ≡ length ys
      → rank xs < rank ys
      → rank (passed ++ xs) < rank (passed ++ ys)
  unfolding rank
  rank-append [] xs ys e h = h
  rank-append (a ∷ passed) xs ys e h =
      let same : length (passed ++ xs) ≡ length (passed ++ ys) =
        omega (arith, length-append passed xs, length-append passed ys, e) in
      rw same (omega (arith, rank-append passed xs ys e h))

  pub rank-moved :
      (a prev : ℕ) (older : List ℕ)
      → key prev < key a
      → All IsDigit (older ++ (a ∷ []))
      → rank (prev ∷ (older ++ (a ∷ []))) < rank (a ∷ prev ∷ older)
  unfolding rank
  rank-moved a prev older h hs =
      let long : length (older ++ (a ∷ [])) ≡ suc (length older) =
        omega (arith, length-append older (a ∷ [])) in
      let less : rank (older ++ (a ∷ [])) < base ^ suc (length older) =
        rw long at (rank-lt (older ++ (a ∷ [])) hs) in
      rw long (omega (arith, less, mul-le-mul_right (base ^ suc (length older)) h))
