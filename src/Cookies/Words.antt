-- ===== src/Cookies/Words.antt =====
-- The strings that `>>` reads of a line, and those that are read as one string.
use d4x.Prelude.{
  ℕ, suc, ◌+◌, ◌/◌, ◌%◌, true, false, [], ◌∷◌, ◌++◌, ltb, if_intro, Bytes, codes, All, ◌≡◌, refl,
  arith,
}
use d4x.Cookies.Files.{skip_white, word_of, behind_word, next_word, is_empty}
use d4x.Decimal.{digits, is_digit, print_number}
use d4x.Decimal.RoundTrip.{IsDigit, digits-IsDigit}
use d4x.Hex.{dec_to_hex, is_hexed, escape, hexed_string}
use d4x.Xml.{is_space}

unfoldable pub NoSpace : Bytes → Type 0
NoSpace s = All (λ c. is_space c ≡ false) s

-- A string that `>>` reads as one word.
unfoldable pub IsWord : Bytes → Type 0
unfolding NoSpace
IsWord [] = ⊥
IsWord (c ∷ s) = NoSpace (c ∷ s)

word_of-NoSpace :
    (w : Bytes) (c : ℕ) (s : Bytes) → NoSpace w → is_space c ≡ true → word_of (w ++ (c ∷ s)) ≡ w
unfolding word_of NoSpace
word_of-NoSpace [] c s h k = rw k refl
word_of-NoSpace (d ∷ w) c s (h, hs) k = rw (h, word_of-NoSpace w c s hs k) refl

behind_word-NoSpace :
    (w : Bytes) (c : ℕ) (s : Bytes)
    → NoSpace w
    → is_space c ≡ true
    → behind_word (w ++ (c ∷ s)) ≡ c ∷ s
unfolding behind_word NoSpace
behind_word-NoSpace [] c s h k = rw k refl
behind_word-NoSpace (d ∷ w) c s (h, hs) k = rw (h, behind_word-NoSpace w c s hs k) refl

skip_white-NoSpace : (d : ℕ) (s : Bytes) → is_space d ≡ false → skip_white (d ∷ s) ≡ d ∷ s
unfolding skip_white
skip_white-NoSpace d s h = rw h refl

pub next_word-IsWord :
    (w : Bytes) (c : ℕ) (s : Bytes)
    → IsWord w
    → is_space c ≡ true
    → next_word (w ++ (c ∷ s)) ≡ (w, c ∷ s)
unfolding next_word IsWord NoSpace
next_word-IsWord [] c s h k = absurd h
next_word-IsWord (d ∷ w) c s (h, hs) k =
    rw
      (
        skip_white-NoSpace d (w ++ (c ∷ s)) h,
        word_of-NoSpace (d ∷ w) c s (h, hs) k,
        behind_word-NoSpace (d ∷ w) c s (h, hs) k,
      )
      refl

-- The last word.
word_of-last : (w : Bytes) → NoSpace w → word_of w ≡ w
unfolding word_of NoSpace
word_of-last [] h = refl
word_of-last (d ∷ w) (h, hs) = rw (h, word_of-last w hs) refl

skip_white-tab : (s : Bytes) → skip_white (9 ∷ s) ≡ skip_white s
unfolding skip_white is_space
skip_white-tab s = refl

pub next_word-tab : (s : Bytes) → next_word (9 ∷ s) ≡ next_word s
unfolding next_word
next_word-tab s = rw (skip_white-tab s) refl

pub next_word-last : (w : Bytes) → IsWord w → (next_word (9 ∷ w)).0 ≡ w
unfolding next_word IsWord NoSpace
next_word-last [] h = absurd h
next_word-last (d ∷ w) (h, hs) =
    rw (skip_white-tab (d ∷ w), skip_white-NoSpace d w h) (word_of-last (d ∷ w) (h, hs))

-- `FALSE` between tabs, and what follows.
unfoldable pub flagged : Bytes → Bytes
flagged s = 9 ∷ b'F' ∷ b'A' ∷ b'L' ∷ b'S' ∷ b'E' ∷ 9 ∷ s

pub next_word-flagged : (s : Bytes) → next_word (flagged s) ≡ (codes "FALSE", 9 ∷ s)
unfolding next_word flagged skip_white word_of behind_word is_space
next_word-flagged s = refl

hexed_byte-NoSpace : (r : ℕ) (s : Bytes) → NoSpace s → NoSpace (escape r s)
unfolding escape NoSpace is_space dec_to_hex
hexed_byte-NoSpace r s h = (refl, (ground arith, (ground arith, h)))

plain : (r : ℕ) → is_hexed r ≡ false → is_space r ≡ false
unfolding is_hexed is_space
plain r h = ground arith

hexed_string-NoSpace : (s : Bytes) → NoSpace (hexed_string s)
unfolding hexed_string NoSpace
hexed_string-NoSpace [] = tt
hexed_string-NoSpace (r ∷ s) =
    if_intro NoSpace (is_hexed r)
      (λ e. hexed_byte-NoSpace r (hexed_string s) (hexed_string-NoSpace s))
      (λ e. (plain r e, hexed_string-NoSpace s))

nonempty-IsWord : (w : Bytes) → is_empty w ≡ false → NoSpace w → IsWord w
unfolding is_empty IsWord
nonempty-IsWord [] h k = cc
nonempty-IsWord (c ∷ w) h k = k

empty_is_empty : is_empty [] ≡ false → ⊥
unfolding is_empty
empty_is_empty h = cc

one_nonempty : (c : ℕ) → is_empty (c ∷ []) ≡ false
unfolding is_empty
one_nonempty c = refl

hexed_nonempty : (c : ℕ) (s : Bytes) → is_empty (hexed_string (c ∷ s)) ≡ false
unfolding hexed_string escape is_empty
hexed_nonempty c s =
    if_intro (λ (x : Bytes). is_empty x ≡ false) (is_hexed c) (λ _. refl) (λ _. refl)

pub hexed_string-IsWord : (s : Bytes) → is_empty s ≡ false → IsWord (hexed_string s)
hexed_string-IsWord [] h = absurd (empty_is_empty h)
hexed_string-IsWord (c ∷ s) h =
    nonempty-IsWord (hexed_string (c ∷ s)) (hexed_nonempty c s) (hexed_string-NoSpace (c ∷ s))

IsDigit-NoSpace : (s : Bytes) → All IsDigit s → NoSpace s
unfolding IsDigit NoSpace is_digit is_space
IsDigit-NoSpace [] h = tt
IsDigit-NoSpace (c ∷ s) (h, hs) = (ground arith, IsDigit-NoSpace s hs)

append_nonempty : (s : Bytes) (c : ℕ) → is_empty (s ++ (c ∷ [])) ≡ false
unfolding is_empty
append_nonempty [] c = refl
append_nonempty (d ∷ s) c = refl

digits_nonempty : (fuel n : ℕ) → is_empty (digits (suc fuel) n) ≡ false
unfolding digits
digits_nonempty fuel n =
    if_intro (λ (s : Bytes). is_empty s ≡ false) (ltb n 10) (λ _. one_nonempty (48 + n))
      (λ _. append_nonempty (digits fuel (n / 10)) (48 + n % 10))

pub print_number-IsWord : (n : ℕ) → IsWord (print_number n)
unfolding print_number
print_number-IsWord n =
    nonempty-IsWord (digits (suc n) n) (digits_nonempty n n)
      (IsDigit-NoSpace (digits (suc n) n) (digits-IsDigit (suc n) n))
