-- ===== src/Speed/Bounds.antt =====
-- The bound on what a round gives out, which is the bandwidth.
use native.Mathlib.Nat.{div-add-mod, mod-lt}
use d4x.Prelude.{
  ℕ, zero, suc, ◌+◌, ◌*◌, ◌/◌, ◌≤◌, ◌<◌, ◌≢◌, Bool, true, false, ◌&&◌, List, [], ◌∷◌, length, ◌≡◌,
  refl, ap, arith,
}
use d4x.Prelude.Int.{ℤ, pos, neg_part, ◌+ℤ◌, ◌-ℤ◌, ◌≤ℤ◌, quot, times, times-pos, int_laws}
use d4x.Speed.{Speed, waits, first_pass, part_of, share, is_zero, schedule, schedule_list}
use d4x.Speed.Shares.{total, share-total}

some_each : (n k : ℕ) → 0 < k → k ≤ n → n / k ≢ 0
some_each n k p l e =
    let none_left : k * (n / k) ≡ k * 0 = ap (λ q. k * q) e in
    absurd (omega (arith, none_left, div-add-mod n k, mod-lt n p, l))

-- The part of n bytes for k Speeds.
part_of-pos : (n k : ℕ) → 0 < k → k ≤ n → part_of (pos n) k ≡ pos (n / k)
unfolding part_of quot
part_of-pos n k p l = let above = some_each n k p l in ground (arith, above)

parts-le : (n k : ℕ) → 0 < k → k ≤ n → times k (part_of (pos n) k) ≤ℤ pos n
parts-le n k p l = rw (part_of-pos n k p l, times-pos k (n / k)) (omega (arith, div-add-mod n k))

within :
    (n k : ℕ) (all parts rest : ℤ)
    → all ≡ parts -ℤ rest
    → parts ≤ℤ pos n
    → neg_part rest < k
    → all +ℤ pos 1 ≤ℤ pos (n + k)
within n k all parts rest e h l = rw e (omega (int_laws, h, l))

and_left : (a b : Bool) → (a && b) ≡ true → a ≡ true
and_left true b h = refl
and_left false b h = h

-- A round with a part for each Speed.
share-le :
    (off : Speed → Bool) (mark : Speed → Speed) (n : ℕ) (speeds : List Speed)
    → ((s : Speed) → off s ≡ true → waits s ≡ true)
    → 0 < length speeds
    → length speeds ≤ n
    → 0 < length (first_pass off mark (part_of (pos n) (length speeds)) speeds).skiplst
    → total (share off mark (part_of (pos n) (length speeds)) speeds).0
        +ℤ total (share off mark (part_of (pos n) (length speeds)) speeds).1
        +ℤ pos 1
      ≤ℤ pos (n + length (first_pass off mark (part_of (pos n) (length speeds)) speeds).skiplst)
share-le off mark n speeds h p l k =
    let part = part_of (pos n) (length speeds) in
    let (rest, e, above, below) = share-total off mark part speeds h k in
    within n (length (first_pass off mark part speeds).skiplst)
      (total (share off mark part speeds).0 +ℤ total (share off mark part speeds).1)
      (times (length speeds) part) rest e (parts-le n (length speeds) p l) below

-- The Speeds that a round of n bytes puts off.
abbrev pub put_off_of : ℕ → Bool → List Speed → List Speed
put_off_of n flag speeds =
    (first_pass (λ s. waits s && flag) (λ s. s) (part_of (pos n) (length speeds)) speeds).skiplst

-- If there are as many bytes as Speeds, or more, and at least one Speed is put off, then what all
-- Speeds may read after a round is less than these bytes and one more for each Speed that was put off.
pub schedule-le :
    (n : ℕ) (flag : Bool) (speeds : List Speed)
    → length speeds ≤ n
    → 0 < length (put_off_of n flag speeds)
    → total (schedule (pos n) flag speeds).0 +ℤ total (schedule (pos n) flag speeds).1 +ℤ pos 1
      ≤ℤ pos (n + length (put_off_of n flag speeds))
unfolding schedule first_pass is_zero
schedule-le n flag [] l k = absurd (omega (arith, k))
schedule-le zero flag (s ∷ speeds) l k = absurd (omega (arith, l))
schedule-le (suc n) flag (s ∷ speeds) l k =
    share-le (λ s. waits s && flag) (λ s. s) (suc n) (s ∷ speeds) (λ s. and_left (waits s) flag)
      (omega arith) l k

-- The Speeds of a queue that a round of n bytes puts off.
abbrev pub put_off_list : ℕ → List Speed → List Speed
put_off_list n speeds =
    let part = part_of (pos n) (length speeds) in
    (first_pass waits (λ s. record s { base2 = part }) part speeds).skiplst

-- The same holds of the Speeds of a queue with a limit of its own, where every Speed that waits is put
-- off.
pub schedule_list-le :
    (n : ℕ) (speeds : List Speed)
    → length speeds ≤ n
    → 0 < length (put_off_list n speeds)
    → total (schedule_list (pos n) speeds).0 +ℤ total (schedule_list (pos n) speeds).1 +ℤ pos 1
      ≤ℤ pos (n + length (put_off_list n speeds))
unfolding schedule_list first_pass is_zero
schedule_list-le n [] l k = absurd (omega (arith, k))
schedule_list-le zero (s ∷ speeds) l k = absurd (omega (arith, l))
schedule_list-le (suc n) (s ∷ speeds) l k =
    let part = part_of (pos (suc n)) (suc (length speeds)) in
    share-le waits (λ s. record s { base2 = part }) (suc n) (s ∷ speeds) (λ s h. h) (omega arith) l
      k
