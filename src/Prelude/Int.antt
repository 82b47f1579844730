-- ===== src/Prelude/Int.antt =====
-- Signed integers over the native numbers, under the library's names. Sums and orders go through the
-- two parts of an integer.
use Prim.Native.Nat.{ℕ, zero, suc, ◌+◌, ◌-◌, ◌*◌, ◌/◌, ◌≤◌, ◌<◌}
use mathlib.Core.Path.{◌≡◌, refl, ap, ◌∙◌}
use mathlib.Core.Bool.{Bool}
use native.Mathlib.Nat.{div-add-mod, mod-lt}
use native.Mathlib.Omega.{arith}
use d4x.Prelude.Tests.{ltb, leb, if◌then◌else◌}

-- `negsuc n` is -(n + 1).
pub data ℤ : Type 0 where
  pos : ℕ → ℤ
  negsuc : ℕ → ℤ

abbrev pub pos_part : ℤ → ℕ
pos_part (pos n) = n
pos_part (negsuc n) = 0

abbrev pub neg_part : ℤ → ℕ
neg_part (pos n) = 0
neg_part (negsuc n) = suc n

abbrev pub sub_ℕ : ℕ → ℕ → ℤ
sub_ℕ a b = if leb b a then pos (a - b) else negsuc (b - a - 1)

infixl 65 ◌+ℤ◌ ◌-ℤ◌
infix 50 ◌≤ℤ◌
unfoldable pub ◌+ℤ◌ : ℤ → ℤ → ℤ
a +ℤ b = sub_ℕ (pos_part a + pos_part b) (neg_part a + neg_part b)

unfoldable pub ◌-ℤ◌ : ℤ → ℤ → ℤ
a -ℤ b = sub_ℕ (pos_part a + neg_part b) (neg_part a + pos_part b)

abbrev pub ◌≤ℤ◌ : ℤ → ℤ → Type 0
a ≤ℤ b = pos_part a + neg_part b ≤ pos_part b + neg_part a

abbrev pub ltb_ℤ : ℤ → ℤ → Bool
ltb_ℤ a b = ltb (pos_part a + neg_part b) (pos_part b + neg_part a)

pub +ℤ_parts :
    (a b : ℤ)
    → pos_part (a +ℤ b) + neg_part a + neg_part b ≡ neg_part (a +ℤ b) + pos_part a + pos_part b
unfolding ◌+ℤ◌
+ℤ_parts a b = ground arith

pub -ℤ_parts :
    (a b : ℤ)
    → pos_part (a -ℤ b) + neg_part a + pos_part b ≡ neg_part (a -ℤ b) + pos_part a + neg_part b
unfolding ◌-ℤ◌
-ℤ_parts a b = ground arith

pub eq_of_parts : (a b : ℤ) → pos_part a + neg_part b ≡ pos_part b + neg_part a → a ≡ b
eq_of_parts a b h = ground arith

pub ruleset int_laws = (arith, +ℤ_parts, -ℤ_parts, eq_of_parts)

-- Division by a natural number towards zero, as in C.
unfoldable pub quot : ℤ → ℕ → ℤ
quot (pos n) k = pos (n / k)
quot (negsuc n) k = sub_ℕ 0 (suc n / k)

-- A multiple.
unfoldable pub times : ℕ → ℤ → ℤ
times zero a = pos 0
times (suc n) a = a +ℤ times n a

pub times_add : (n : ℕ) (a b : ℤ) → times n (a +ℤ b) ≡ times n a +ℤ times n b
unfolding times
times_add zero a b = unfold ◌+ℤ◌ in refl
times_add (suc n) a b = ap (λ x. (a +ℤ b) +ℤ x) (times_add n a b) ∙ omega int_laws

zero_plus : (n : ℕ) → 0 + n ≡ n
zero_plus n = omega arith

suc_plus : (m n : ℕ) → suc m + n ≡ suc (m + n)
suc_plus m n = omega arith

pub add_times : (m n : ℕ) (a : ℤ) → times (m + n) a ≡ times m a +ℤ times n a
unfolding times
add_times zero n a = ap (λ k. times k a) (zero_plus n) ∙ omega int_laws
add_times (suc m) n a =
    ap (λ k. times k a) (suc_plus m n) ∙ ap (λ x. a +ℤ x) (add_times m n a) ∙ omega int_laws

zero_times : (q : ℕ) → 0 ≡ 0 * q
zero_times q = omega arith

suc_times : (k q : ℕ) → q + k * q ≡ suc k * q
suc_times k q = omega arith

add_negatives : (a b : ℕ) → sub_ℕ 0 a +ℤ sub_ℕ 0 b ≡ sub_ℕ 0 (a + b)
unfolding ◌+ℤ◌
add_negatives a b = ground arith

pub times-pos : (k q : ℕ) → times k (pos q) ≡ pos (k * q)
unfolding times
times-pos zero q = ap pos (zero_times q)
times-pos (suc k) q = ap (λ x. pos q +ℤ x) (times-pos k q) ∙ omega int_laws

times-neg : (k q : ℕ) → times k (sub_ℕ 0 q) ≡ sub_ℕ 0 (k * q)
unfolding times
times-neg zero q = ap (sub_ℕ 0) (zero_times q)
times-neg (suc k) q =
    ap (λ x. sub_ℕ 0 q +ℤ x) (times-neg k q)
    ∙ add_negatives q (k * q)
    ∙ ap (sub_ℕ 0) (suc_times k q)

rest_of_positive :
    (n m k : ℕ)
    → m ≤ n
    → n < m + k
    → (pos_part (pos n -ℤ pos m) < k) × (neg_part (pos n -ℤ pos m) < k)
unfolding ◌-ℤ◌
rest_of_positive n m k h l = ground arith

rest_of_negative :
    (n m k : ℕ)
    → m ≤ suc n
    → suc n < m + k
    → (pos_part (negsuc n -ℤ sub_ℕ 0 m) < k) × (neg_part (negsuc n -ℤ sub_ℕ 0 m) < k)
unfolding ◌-ℤ◌
rest_of_negative n m k h l = ground arith

-- What the division leaves is less than the divisor.
pub quot_rest :
    (a : ℤ) (k : ℕ)
    → 0 < k
    → (pos_part (a -ℤ times k (quot a k)) < k) × (neg_part (a -ℤ times k (quot a k)) < k)
unfolding quot
quot_rest (pos n) k h = rw (times-pos k (n / k)) (
    rest_of_positive n (k * (n / k)) k (omega (arith, div-add-mod n k))
      (omega (arith, div-add-mod n k, mod-lt n h)))
quot_rest (negsuc n) k h = rw (times-neg k (suc n / k)) (
    rest_of_negative n (k * (suc n / k)) k (omega (arith, div-add-mod (suc n) k))
      (omega (arith, div-add-mod (suc n) k, mod-lt (suc n) h)))
