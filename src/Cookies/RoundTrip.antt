-- ===== src/Cookies/RoundTrip.antt =====
-- The file that save_cookie writes, loaded again.
use d4x.Prelude.{
  ℕ, zero, suc, ◌<◌, Bool, true, false, Option, none, some, List, [], ◌∷◌, ◌++◌, if◌then◌else◌,
  Bool-cases, Bytes, length, All, ◌≡◌, refl, sym, ap, ◌∙◌, append_assoc, append-nil, inl, inr,
  arith,
}
use d4x.Cookies.{Cookie}
use d4x.Cookies.Files.{
  is_comment, keep_cookie, read_cookie, load_line, go_on, load_from_file, write_all, cookie_texts,
  save_cookie,
}
use d4x.Cookies.Words.{flagged}
use d4x.Cookies.Saved.{
  cookie_line, IsSavable, is_comment-cookie_line, loaded, read_cookie-cookie_line,
}
use d4x.Schedule.Files.{ignored}
use d4x.Schedule.{stored}
use d4x.SortTree.{Tree, SortTree, leaf, node}
use d4x.TextFile.{f_rstr, f_wstr, read_line, line, no_line}
use d4x.TextFile.Lines.{fits, Appends, f_rstr-lf}

-- The own cookies of a tree, a cookie in front of those below it.
unfoldable pub own_cookies : Tree Cookie → List Cookie
own_cookies leaf = []
own_cookies (node less c more) =
    let below = own_cookies less ++ own_cookies more in if c.myown then c ∷ below else below

-- The lines of those cookies.
unfoldable pub lines : List Cookie → Bytes
lines [] = []
lines (c ∷ cs) = cookie_line c (10 ∷ lines cs)

cookie_line-append : (c : Cookie) (x y : Bytes) → cookie_line c x ++ y ≡ cookie_line c (x ++ y)
unfolding cookie_line flagged
cookie_line-append c x y = simp append_assoc

lines-append : (xs ys : List Cookie) → lines (xs ++ ys) ≡ lines xs ++ lines ys
unfolding lines
lines-append [] ys = refl
lines-append (c ∷ xs) ys =
    rw (lines-append xs ys) (sym (cookie_line-append c (10 ∷ lines xs) (lines ys)))

joined : List Bytes → Bytes
joined [] = []
joined (s ∷ texts) = s ++ joined texts

module _ (sys_write : Bytes → Bytes → Option Bytes) (appends : Appends sys_write) where
  write_all-joined :
      (texts : List Bytes) (file : Bytes) → write_all sys_write texts file ≡ file ++ joined texts
  unfolding write_all joined ignored stored f_wstr Appends
  write_all-joined [] file = sym (append-nil file)
  write_all-joined (s ∷ texts) file =
      rw (appends file s) (write_all-joined texts (file ++ s) ∙ append_assoc file s (joined texts))

  joined-cookie_texts : (c : Cookie) → joined (cookie_texts sys_write c) ≡ cookie_line c (10 ∷ [])
  unfolding joined cookie_texts cookie_line flagged
  joined-cookie_texts c = refl

  -- What save_cookie adds to a file.
  save_cookie-lines :
      (t : Tree Cookie) (file : Bytes)
      → save_cookie sys_write t file ≡ file ++ lines (own_cookies t)
  unfolding save_cookie own_cookies lines cookie_line
  save_cookie-lines leaf file = sym (append-nil file)
  save_cookie-lines (node less c more) file = elim (Bool-cases c.myown) [
    | inl own ↦
        let below = lines (own_cookies less) ++ lines (own_cookies more) in
        rw
          (
            own,
            write_all-joined (cookie_texts sys_write c) file,
            joined-cookie_texts c,
            save_cookie-lines less (file ++ cookie_line c (10 ∷ [])),
            save_cookie-lines more ((file ++ cookie_line c (10 ∷ [])) ++ lines (own_cookies less)),
            lines-append (own_cookies less) (own_cookies more),
          )
          (append_assoc (file ++ cookie_line c (10 ∷ [])) (lines (own_cookies less))
              (lines (own_cookies more))
            ∙ append_assoc file (cookie_line c (10 ∷ [])) below
            ∙ ap (λ r. file ++ r) (cookie_line-append c (10 ∷ []) below))
    | inr other ↦
        rw
          (
            other,
            save_cookie-lines less file,
            save_cookie-lines more (file ++ lines (own_cookies less)),
            lines-append (own_cookies less) (own_cookies more),
          )
          (append_assoc file (lines (own_cookies less)) (lines (own_cookies more)))
  ]

-- Cookies that are loaded one after the other, with the escapes in their paths, names and values.
unfoldable pub load_all : ℕ → Bool → List Cookie → SortTree Cookie → Option (SortTree Cookie)
unfolding go_on keep_cookie loaded
load_all at myown [] t = some t
load_all at myown (c ∷ cs) t =
    go_on (load_all (suc at) myown cs) (keep_cookie t (loaded at myown c))

load_line-keep :
    (at : ℕ) (myown : Bool) (s : Bytes) (t : SortTree Cookie)
    → is_comment s ≡ false
    → load_line at myown s t ≡ keep_cookie t (read_cookie at myown s)
unfolding load_line
load_line-keep at myown s t h = rw h refl

load_line-loaded :
    (at : ℕ) (myown : Bool) (c : Cookie) (t : SortTree Cookie)
    → IsSavable c
    → load_line at myown (cookie_line c []) t ≡ keep_cookie t (loaded at myown c)
load_line-loaded at myown c t h =
    load_line-keep at myown (cookie_line c []) t (is_comment-cookie_line c h)
    ∙ ap (keep_cookie t) (read_cookie-cookie_line at myown c h)

-- One line of the file.
load_from_file-line :
    (fuel at : ℕ) (myown : Bool) (s rest : Bytes) (t : SortTree Cookie)
    → fits 4047 s ≡ true
    → load_from_file (suc fuel) at myown (s ++ (10 ∷ rest)) t
      ≡ go_on (load_from_file fuel (suc at) myown rest) (load_line at myown s t)
unfolding load_from_file no_line line
load_from_file-line fuel at myown s rest t h = rw (f_rstr-lf s rest h) refl

load_from_file-end :
    (fuel at : ℕ) (myown : Bool) (t : SortTree Cookie)
    → load_from_file (suc fuel) at myown [] t ≡ some t
unfolding load_from_file f_rstr read_line line no_line
load_from_file-end fuel at myown t = refl

go_on-eq :
    (k k' : SortTree Cookie → Option (SortTree Cookie)) (o : Option (SortTree Cookie))
    → ((t : SortTree Cookie) → k t ≡ k' t)
    → go_on k o ≡ go_on k' o
unfolding go_on
go_on-eq k k' none h = refl
go_on-eq k k' (some t) h = h t

load_from_file-lines :
    (fuel at : ℕ) (myown : Bool) (cs : List Cookie) (t : SortTree Cookie)
    → All IsSavable cs
    → length cs < fuel
    → load_from_file fuel at myown (lines cs) t ≡ load_all at myown cs t
unfolding lines load_all
load_from_file-lines zero at myown cs t h l = absurd (omega (arith, l))
load_from_file-lines (suc fuel) at myown [] t h l = load_from_file-end fuel at myown t
load_from_file-lines (suc fuel) at myown (c ∷ cs) t (h, hs) l =
    ap (λ file. load_from_file (suc fuel) at myown file t)
      (sym (cookie_line-append c [] (10 ∷ lines cs)))
    ∙ load_from_file-line fuel at myown (cookie_line c []) (lines cs) t h.line_fits
    ∙ ap (go_on (load_from_file fuel (suc at) myown (lines cs))) (load_line-loaded at myown c t h)
    ∙ go_on-eq (load_from_file fuel (suc at) myown (lines cs)) (load_all (suc at) myown cs)
        (keep_cookie t (loaded at myown c))
        (λ t'. load_from_file-lines fuel (suc at) myown cs t' hs (omega (arith, l)))

-- If the device takes all that is written, then loading the file to which a tree of cookies was saved
-- is as keeping its own cookies one after the other, a cookie before those below it, where those that
-- are not its own are left out: with the hosts and the times that they had, but with the paths, the
-- names and the values as hexed_string has written them, since nothing turns the escapes back. The
-- strings of the own cookies must not be empty, a host must be one word and not begin with `#`, and
-- each line must fit into the buffer of the reader.
pub load_from_file-save_cookie :
    (sys_write : Bytes → Bytes → Option Bytes) (fuel at : ℕ) (myown : Bool) (saved : Tree Cookie)
    (t : SortTree Cookie)
    → Appends sys_write
    → All IsSavable (own_cookies saved)
    → length (own_cookies saved) < fuel
    → load_from_file fuel at myown (save_cookie sys_write saved []) t
      ≡ load_all at myown (own_cookies saved) t
load_from_file-save_cookie sys_write fuel at myown saved t a h l =
    ap (λ file. load_from_file fuel at myown file t) (save_cookie-lines sys_write a saved [])
    ∙ load_from_file-lines fuel at myown (own_cookies saved) t h l
