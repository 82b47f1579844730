-- ===== src/Strings/Begin.antt =====
-- What begin_string and begin_string_uncase accept.
use d4x.Prelude.{
  ℕ, ◌≤◌, ◌↔◌, Bool, true, false, ◌&&◌, [], ◌∷◌, ◌++◌, ltb, leb, if◌then◌else◌, Bytes, length, ◌≡◌,
  refl, arith,
}
use d4x.Strings.{same_first, equal_first_by, equal_first, begin_string}

-- The first string is the second one and something more.
pub data Begins : Bytes → Bytes → Type 0 where
  begins : (begin rest : Bytes) → Begins (begin ++ rest) begin

Begins-cons : (c : ℕ) (s t : Bytes) → Begins s t → Begins (c ∷ s) (c ∷ t)
Begins-cons c _ _ (begins begin rest) = begins (c ∷ begin) rest

same_first→Begins :
    (a b : Bytes) → length b ≤ length a → same_first (λ c. c) (length b) a b ≡ true → Begins a b
unfolding same_first
same_first→Begins a [] h e = begins [] a
same_first→Begins [] (d ∷ b) h e = absurd (omega arith)
same_first→Begins (c ∷ a) (d ∷ b) h e =
    let same : c ≡ d = ground arith in
    let more : same_first (λ c. c) (length b) a b ≡ true = ground arith in
    rw same (Begins-cons d a b (same_first→Begins a b (omega arith) more))

pub Begins→same_first :
    (a b : Bytes) → Begins a b → (same_first (λ c. c) (length b) a b ≡ true) × (length b ≤ length a)
unfolding same_first
Begins→same_first _ _ (begins [] rest) = (refl, omega arith)
Begins→same_first _ _ (begins (c ∷ b) rest) =
    let (same, le) = Begins→same_first (b ++ rest) b (begins b rest) in
    (rw same (ground arith), omega (arith, le))

and_left : (x y : Bool) → (x && y) ≡ true → x ≡ true
and_left true y h = refl
and_left false y h = h

shorter : (x y : ℕ) → y ≤ x → (if ltb x y then x else y) ≡ y
shorter x y h = ground arith

first_part :
    (c : ℕ) (str : Bytes) (d : ℕ) (b : Bytes)
    → begin_string (c ∷ str) (d ∷ b) ≡ true
    → same_first
        (λ c. c)
        (if ltb (length (c ∷ str)) (length (d ∷ b)) then length (c ∷ str) else length (d ∷ b))
        (c ∷ str)
        (d ∷ b)
      ≡ true
unfolding begin_string equal_first equal_first_by
first_part c str d b e =
    and_left
      (same_first (λ c. c)
        (if ltb (length (c ∷ str)) (length (d ∷ b)) then length (c ∷ str) else length (d ∷ b))
        (c ∷ str) (d ∷ b))
      (leb (length (d ∷ b)) (length (c ∷ str))) e

-- For a string and a beginning that is not empty, begin_string returns 1 exactly if the string is
-- the beginning followed by something, or by nothing.
pub begin_string_iff :
    (str : Bytes) (d : ℕ) (b : Bytes) → (begin_string str (d ∷ b) ≡ true) ↔ Begins str (d ∷ b)
unfolding begin_string equal_first equal_first_by
begin_string_iff [] d b =
    (λ e. absurd (ground arith), λ p. absurd (omega (arith, (Begins→same_first [] (d ∷ b) p).1)))
begin_string_iff (c ∷ str) d b = (
  λ e.
      let le : length (d ∷ b) ≤ length (c ∷ str) = ground arith in
      let same : same_first (λ c. c) (length (d ∷ b)) (c ∷ str) (d ∷ b) ≡ true =
        rw (shorter (length (c ∷ str)) (length (d ∷ b)) le) at (first_part c str d b e) in
      same_first→Begins (c ∷ str) (d ∷ b) le same,
  λ p.
      let (same, le) = Begins→same_first (c ∷ str) (d ∷ b) p in
      rw (shorter (length (c ∷ str)) (length (d ∷ b)) le, same) (ground arith),
)
