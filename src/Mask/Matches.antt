-- ===== src/Mask/Matches.antt =====
-- The language of a mask as a relation, and that the three functions decide it.
use d4x.Prelude.{
  ℕ, ◌≡◌, ◌≢◌, ◌↔◌, refl, sym, ◌∙◌, fun_ext, inl, inr, Bool, true, false, [], ◌∷◌, ◌==◌,
  if◌then◌else◌, Bytes, arith, Bool-cases, ==_iff,
}
use d4x.Mask.{
  star, question, any_suffix, after_star, after_question, after_byte, at_end, check_mask,
  check_mask2, check_mask2_uncase,
}

-- `Matches joker same m s`: the mask `m` describes `s`. A star stands for one byte or more, `?` for one byte if
-- `joker` holds of it, and any other byte for the bytes that are the same.
pub data Matches (joker : ℕ → Bool) (same : ℕ → ℕ → Bool) : Bytes → Bytes → Type 0 where
  end : Matches joker same [] []
  star_last :
      {k c : ℕ} {m s : Bytes}
      → k ≡ star
      → Matches joker same m s
      → Matches joker same (k ∷ m) (c ∷ s)
  star_more :
      {k c : ℕ} {m s : Bytes}
      → k ≡ star
      → Matches joker same (k ∷ m) s
      → Matches joker same (k ∷ m) (c ∷ s)
  any :
      {k c : ℕ} {m s : Bytes}
      → k ≢ star
      → joker k ≡ true
      → Matches joker same m s
      → Matches joker same (k ∷ m) (c ∷ s)
  byte :
      {k c : ℕ} {m s : Bytes}
      → k ≢ star
      → joker k ≡ false
      → same c k ≡ true
      → Matches joker same m s
      → Matches joker same (k ∷ m) (c ∷ s)

module _ (joker : ℕ → Bool) (same : ℕ → ℕ → Bool) where
  -- The common form of the three functions.
  pub matches : Bytes → Bytes → Bool
  unfolding after_star after_question after_byte at_end
  matches [] s = at_end s
  matches (k ∷ m) s =
      if k == star
      then after_star (matches m) s
      else if joker k
      then after_question (matches m) s
      else after_byte (λ c. same c k) (matches m) s

  star_sound :
      (k : ℕ) (m s : Bytes) (c : ℕ)
      → k ≡ star
      → ((u : Bytes) → matches m u ≡ true → Matches joker same m u)
      → any_suffix (matches m) s ≡ true
      → Matches joker same (k ∷ m) (c ∷ s)
  unfolding any_suffix
  star_sound k m [] c e ih h = star_last e (ih [] h)
  star_sound k m (d ∷ s) c e ih h = elim (Bool-cases (matches m (d ∷ s))) [
    | inl p ↦ star_last e (ih (d ∷ s) p)
    | inr p ↦ star_more e (star_sound k m s d e ih (rw p at h))
  ]

  pub sound : (m s : Bytes) → matches m s ≡ true → Matches joker same m s
  unfolding matches after_star after_question after_byte at_end
  sound [] [] h = end
  sound [] (c ∷ s) h = cc
  sound (k ∷ m) [] h = absurd (ground arith)
  sound (k ∷ m) (c ∷ s) h = elim (Bool-cases (k == star)) [
    | inl e ↦ star_sound k m s c ((==_iff _ _).0 e) (sound m) (rw e at h)
    | inr e ↦ elim (Bool-cases (joker k)) [
      | inl j ↦ any (ground arith) j (sound m s (ground arith))
      | inr j ↦ byte (ground arith) j (ground arith) (sound m s (ground arith))
    ]
  ]

  any_suffix_here : (f : Bytes → Bool) (s : Bytes) → f s ≡ true → any_suffix f s ≡ true
  unfolding any_suffix
  any_suffix_here f [] h = h
  any_suffix_here f (c ∷ s) h = rw h

  any_suffix_more : (f : Bytes → Bool) (s : Bytes) → after_star f s ≡ true → any_suffix f s ≡ true
  unfolding any_suffix after_star
  any_suffix_more f [] h = cc
  any_suffix_more f (c ∷ s) h = ground arith

  pub complete : {m s : Bytes} → Matches joker same m s → matches m s ≡ true
  unfolding matches after_question after_byte at_end
  complete end = refl
  complete (star_last {k} {m} {s} e d) =
      let h : (k == star) ≡ true = ground arith in
      rw h (unfold after_star in any_suffix_here (matches m) s (complete d))
  complete (star_more {k} {m} {s} e d) =
      let h : (k == star) ≡ true = ground arith in
      rw h (unfold after_star in any_suffix_more (matches m) s (rw h at (complete d)))
  complete (any {k} e j d) = let h : (k == star) ≡ false = ground arith in rw (h, j) (complete d)
  complete (byte {k} e j q d) =
      let h : (k == star) ≡ false = ground arith in rw (h, j, q) (complete d)

-- Each of the three functions is an instance.
check_mask-matches : (m s : Bytes) → check_mask m s ≡ matches (λ k. false) (λ c k. c == k) m s
unfolding check_mask matches
check_mask-matches [] s = refl
check_mask-matches (k ∷ m) s = rw (fun_ext (check_mask-matches m))

check_mask2-matches :
    (m s : Bytes) → check_mask2 m s ≡ matches (λ k. k == question) (λ c k. c == k) m s
unfolding check_mask2 matches
check_mask2-matches [] s = refl
check_mask2-matches (k ∷ m) s = rw (fun_ext (check_mask2-matches m))

check_mask2_uncase-matches :
    (tolower : ℕ → ℕ) (m s : Bytes)
    → check_mask2_uncase tolower m s
      ≡ matches (λ k. k == question) (λ c k. tolower c == tolower k) m s
unfolding check_mask2_uncase matches
check_mask2_uncase-matches tolower [] s = refl
check_mask2_uncase-matches tolower (k ∷ m) s = rw (fun_ext (check_mask2_uncase-matches tolower m))

-- check_mask accepts exactly the strings that the mask describes, where a star stands for one byte
-- or more and every other byte, `?` too, for itself.
pub check_mask_iff :
    (m s : Bytes) → (check_mask m s ≡ true) ↔ Matches (λ k. false) (λ c k. c == k) m s
check_mask_iff m s = (
  λ h. sound _ _ m s (sym (check_mask-matches m s) ∙ h),
  λ d. check_mask-matches m s ∙ complete _ _ d,
)

-- check_mask2 accepts exactly the strings that the mask describes, where a star stands for one byte
-- or more, `?` for one byte, and every other byte for itself.
pub check_mask2_iff :
    (m s : Bytes) → (check_mask2 m s ≡ true) ↔ Matches (λ k. k == question) (λ c k. c == k) m s
check_mask2_iff m s = (
  λ h. sound _ _ m s (sym (check_mask2-matches m s) ∙ h),
  λ d. check_mask2-matches m s ∙ complete _ _ d,
)

-- Whatever `tolower` does, check_mask2_uncase accepts exactly the strings that the mask describes, where a star stands for
-- one byte or more, `?` for one byte, and every other byte for those that `tolower` maps alike.
pub check_mask2_uncase_iff :
    (tolower : ℕ → ℕ) (m s : Bytes)
    → (check_mask2_uncase tolower m s ≡ true)
      ↔ Matches (λ k. k == question) (λ c k. tolower c == tolower k) m s
check_mask2_uncase_iff tolower m s = (
  λ h. sound _ _ m s (sym (check_mask2_uncase-matches tolower m s) ∙ h),
  λ d. check_mask2_uncase-matches tolower m s ∙ complete _ _ d,
)
