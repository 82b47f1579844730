-- ===== src/Addresses/Slashes.antt =====
-- main/addr.cc: an address that is read and printed again has one slash more.
use d4x.Prelude.{
  ℕ, suc, Bool, true, Option, none, some, [], ◌∷◌, ◌++◌, ◌==◌, Bytes, codes, take, drop, length,
  ◌≡◌, refl, arith, ap, ◌∙◌,
}
use d4x.Paths.{normalize, glue, append}
use d4x.Paths.Tame.{tame, tame-append, normalize-tame}
use d4x.Addresses.{join, ◌before◌}
use d4x.Addresses.Reading.{find, rfind, rooted, split_path, read_path}
use d4x.Addresses.Find.{find-none, rfind-append, take-length, drop-behind}

-- A list of directories: empty, or with a slash at its beginning.
abbrev pub is_dir : Bytes → Bool
is_dir [] = true
is_dir (c ∷ dir) = c == b'/'

pub tame-root :
    (dir : Bytes) → is_dir dir ≡ true → tame true dir ≡ true → tame true (b'/' ∷ dir) ≡ true
tame-root [] d h = refl
tame-root (c ∷ dir) d h = ground arith

pub append-root :
    (fuel : ℕ) (dir : Bytes)
    → is_dir dir ≡ true
    → tame true dir ≡ true
    → append fuel (codes "/") dir ≡ some (b'/' ∷ dir)
unfolding append glue
append-root fuel [] d h = refl
append-root fuel (c ∷ dir) d h =
    rw d (normalize-tame fuel (b'/' ∷ c ∷ dir) (tame-root (c ∷ dir) d h))

pub before-some {κ} :
    {A : Type κ} (o : Option Bytes) (p : Bytes) (k : Bytes → Option A)
    → o ≡ some p
    → (o before k) ≡ k p
unfolding ◌before◌
before-some o p k e = ap (λ o. o before k) e

rooted_lem :
    (fuel : ℕ) (file dir : Bytes)
    → is_dir dir ≡ true
    → tame true dir ≡ true
    → rooted fuel file dir ≡ some (b'/' ∷ dir, file)
unfolding rooted
rooted_lem fuel file dir d h =
    before-some (append fuel (codes "/") dir) (b'/' ∷ dir) (λ joined. some (joined, file))
      (append-root fuel dir d h)

module _ (fuel : ℕ) (dir file : Bytes) (is : is_dir dir ≡ true) (dir_tame : tame true dir ≡ true)
    (file_tame : tame true file ≡ true) (flat : find b'/' file ≡ none) where
  split_path_lem :
      split_path fuel (dir ++ b'/' ∷ file) (some (length dir)) ≡ some (b'/' ∷ dir, file)
  unfolding split_path
  split_path_lem =
      before-some (normalize fuel (take (length dir) (dir ++ b'/' ∷ file))) dir
        (rooted fuel (drop (suc (length dir)) (dir ++ b'/' ∷ file)))
        (ap (normalize fuel) (take-length dir (b'/' ∷ file)) ∙ normalize-tame fuel dir dir_tame)
      ∙ ap (λ f. rooted fuel f dir) (drop-behind dir b'/' file)
      ∙ rooted_lem fuel file dir is dir_tame

  pub read_path_lem : read_path fuel (dir ++ b'/' ∷ file) ≡ some (b'/' ∷ dir, file)
  unfolding read_path
  read_path_lem =
      before-some (normalize fuel (dir ++ b'/' ∷ file)) (dir ++ b'/' ∷ file)
        (λ path. split_path fuel path (rfind b'/' path))
        (normalize-tame fuel (dir ++ b'/' ∷ file) (tame-append true dir file dir_tame file_tame))
      ∙ ap (split_path fuel (dir ++ b'/' ∷ file)) (rfind-append b'/' dir file flat)
      ∙ split_path_lem

append-file :
    (fuel : ℕ) (path file : Bytes) (c : ℕ)
    → tame true path ≡ true
    → tame true (c ∷ file) ≡ true
    → find b'/' (c ∷ file) ≡ none
    → append fuel path (c ∷ file) ≡ some (path ++ b'/' ∷ c ∷ file)
unfolding append glue
append-file fuel path file c h k flat =
    let (n, f) = find-none b'/' c file flat in
    rw n (normalize-tame fuel (path ++ b'/' ∷ c ∷ file) (tame-append true path (c ∷ file) h k))

pub join_lem :
    (fuel : ℕ) (path file : Bytes) (c : ℕ)
    → tame true path ≡ true
    → tame true (c ∷ file) ≡ true
    → find b'/' (c ∷ file) ≡ none
    → join fuel path (c ∷ file) ≡ some (path ++ b'/' ∷ c ∷ file)
unfolding join
join_lem fuel path file c h k flat =
    before-some (normalize fuel (c ∷ file)) (c ∷ file) (append fuel path)
      (normalize-tame fuel (c ∷ file) k)
    ∙ append-file fuel path file c h k flat
