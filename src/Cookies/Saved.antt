-- ===== src/Cookies/Saved.antt =====
-- What becomes of a cookie that is saved and loaded again.
use d4x.Prelude.{
  ℕ, suc, Bool, true, false, [], ◌∷◌, ◌++◌, Bytes, codes, ◌≡◌, refl, ap, ◌∙◌, append-nil,
}
use d4x.Cookies.{Cookie}
use d4x.Cookies.Files.{words, nth_word, cookie_of, read_cookie, is_comment, is_empty}
use d4x.Decimal.{print_number}
use d4x.Decimal.RoundTrip.{scan_number-print_number}
use d4x.Hex.{hexed_string}
use d4x.Schedule.{stored}
use d4x.TextFile.Lines.{fits}
use d4x.Xml.{is_space}
use d4x.Cookies.Words.{
  IsWord, flagged, next_word-IsWord, next_word-tab, next_word-last, next_word-flagged,
  hexed_string-IsWord, print_number-IsWord,
}

-- What save_cookie writes for a cookie, in front of what follows.
unfoldable pub cookie_line : Cookie → Bytes → Bytes
unfolding flagged
cookie_line c rest =
    c.host
    ++ flagged (
        hexed_string c.path
        ++ flagged (
            print_number c.time_of_life
            ++ (9 ∷ (hexed_string c.name ++ (9 ∷ (hexed_string c.value ++ rest))))))

-- A cookie that is saved as one line that can be read: its strings are not empty, its host is one word
-- that does not begin with `#`, and the line fits into the buffer of the reader.
pub record IsSavable (c : Cookie) : Type 0 where
  pub host_word : IsWord c.host
  pub has_path : is_empty c.path ≡ false
  pub has_name : is_empty c.name ≡ false
  pub has_value : is_empty c.value ≡ false
  pub no_comment : is_comment c.host ≡ false
  pub line_fits : fits 4047 (cookie_line c []) ≡ true

-- The cookie that is read for one that was saved.
unfoldable pub loaded : ℕ → Bool → Cookie → Cookie
loaded at myown c = record c {
  at = at;
  path = hexed_string c.path;
  name = hexed_string c.name;
  value = hexed_string c.value;
  myown = myown;
}

words-word :
    (n : ℕ) (w s : Bytes) → IsWord w → words (suc n) (9 ∷ (w ++ (9 ∷ s))) ≡ w ∷ words n (9 ∷ s)
unfolding words is_space
words-word n w s h =
    ap (λ (p : Bytes × Bytes). p.0 ∷ words n p.1)
      (next_word-tab (w ++ (9 ∷ s)) ∙ next_word-IsWord w 9 s h refl)

words-first : (n : ℕ) (w s : Bytes) → IsWord w → words (suc n) (w ++ (9 ∷ s)) ≡ w ∷ words n (9 ∷ s)
unfolding words is_space
words-first n w s h = ap (λ (p : Bytes × Bytes). p.0 ∷ words n p.1) (next_word-IsWord w 9 s h refl)

words-flagged : (n : ℕ) (s : Bytes) → words (suc n) (flagged s) ≡ codes "FALSE" ∷ words n (9 ∷ s)
unfolding words
words-flagged n s = ap (λ (p : Bytes × Bytes). p.0 ∷ words n p.1) (next_word-flagged s)

words-last : (w : Bytes) → IsWord w → words 1 (9 ∷ w) ≡ w ∷ []
unfolding words
words-last w h = ap (λ x. x ∷ []) (next_word-last w h)

-- The strings of a line from the time on.
words-time :
    (c : Cookie)
    → IsSavable c
    → words 3 (
        9
        ∷ (print_number c.time_of_life
            ++ (9 ∷ (hexed_string c.name ++ (9 ∷ (hexed_string c.value ++ []))))))
      ≡ print_number c.time_of_life ∷ hexed_string c.name ∷ hexed_string c.value ∷ []
words-time c h =
    let value = hexed_string c.value in
    let name = hexed_string c.name in
    let last : words 1 (9 ∷ (value ++ [])) ≡ value ∷ [] =
      rw (append-nil value) (words-last value (hexed_string-IsWord c.value h.has_value)) in
    words-word 2 (print_number c.time_of_life) (name ++ (9 ∷ (value ++ [])))
      (print_number-IsWord c.time_of_life)
    ∙ ap (λ ws. print_number c.time_of_life ∷ ws)
        (words-word 1 name (value ++ []) (hexed_string-IsWord c.name h.has_name)
          ∙ ap (λ ws. name ∷ ws) last)

words-cookie_line :
    (c : Cookie)
    → IsSavable c
    → words 7 (cookie_line c [])
      ≡ c.host
        ∷ codes "FALSE"
        ∷ hexed_string c.path
        ∷ codes "FALSE"
        ∷ print_number c.time_of_life
        ∷ hexed_string c.name
        ∷ hexed_string c.value
        ∷ []
unfolding cookie_line flagged
words-cookie_line c h =
    let time =
      print_number c.time_of_life
      ++ (9 ∷ (hexed_string c.name ++ (9 ∷ (hexed_string c.value ++ [])))) in
    let path = hexed_string c.path in
    let flag = b'F' ∷ b'A' ∷ b'L' ∷ b'S' ∷ b'E' ∷ [] in
    words-first 6 c.host (flag ++ (9 ∷ (path ++ flagged time))) h.host_word
    ∙ ap (λ ws. c.host ∷ ws)
        (words-flagged 5 (path ++ flagged time)
          ∙ ap (λ ws. flag ∷ ws)
              (words-word 4 path (flag ++ (9 ∷ time)) (hexed_string-IsWord c.path h.has_path)
                ∙ ap (λ ws. path ∷ ws)
                    (words-flagged 3 time ∙ ap (λ ws. flag ∷ ws) (words-time c h))))

-- The line of a saved cookie is read as the cookie with its escapes.
pub read_cookie-cookie_line :
    (at : ℕ) (myown : Bool) (c : Cookie)
    → IsSavable c
    → read_cookie at myown (cookie_line c []) ≡ loaded at myown c
unfolding read_cookie loaded cookie_of nth_word stored
read_cookie-cookie_line at myown c h =
    ap (cookie_of at myown) (words-cookie_line c h)
    ∙ rw (scan_number-print_number c.time_of_life) refl

is_comment-append :
    (host s : Bytes) → IsWord host → is_comment host ≡ false → is_comment (host ++ s) ≡ false
unfolding IsWord is_comment
is_comment-append [] s h k = absurd h
is_comment-append (c ∷ host) s h k = k

-- The line is no comment.
pub is_comment-cookie_line : (c : Cookie) → IsSavable c → is_comment (cookie_line c []) ≡ false
unfolding cookie_line
is_comment-cookie_line c h =
    is_comment-append c.host
      (flagged (
        hexed_string c.path
        ++ flagged (
            print_number c.time_of_life
            ++ (9 ∷ (hexed_string c.name ++ (9 ∷ (hexed_string c.value ++ [])))))))
      h.host_word h.no_comment
