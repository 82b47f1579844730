-- ===== src/Paths/Tame.antt =====
-- main/path.cc: the paths that Path::normalize leaves as they are.
use d4x.Prelude.{
  ℕ, Bool, true, false, ◌&&◌, not, none, some, [], ◌∷◌, ◌++◌, ◌==◌, Bytes, ◌≡◌, refl, arith, ap,
  ◌∙◌,
}
use d4x.Paths.{begins_up, further, find_up, drop_dot, drop_dots, drop_tail, trim, normalize}
use d4x.Paths.Loop.{loop_done}

-- No dot stands behind a slash; `start` says whether the byte in front was one.
abbrev pub tame : Bool → Bytes → Bool
tame start [] = true
tame start (a ∷ rest) = not (start && (a == b'.')) && tame (a == b'/') rest

pub tame-append :
    (start : Bool) (dir file : Bytes)
    → tame start dir ≡ true
    → tame true file ≡ true
    → tame start (dir ++ b'/' ∷ file) ≡ true
tame-append start [] file h k = ground arith
tame-append start (a ∷ dir) file h k = ground (arith, tame-append (a == b'/') dir file)

tame-begins_up : (start : Bool) (path : Bytes) → tame start path ≡ true → begins_up path ≡ false
unfolding begins_up
tame-begins_up start [] h = refl
tame-begins_up start (a ∷ []) h = refl
tame-begins_up start (a ∷ b ∷ []) h = refl
tame-begins_up start (a ∷ b ∷ c ∷ []) h = refl
tame-begins_up start (a ∷ b ∷ c ∷ d ∷ rest) h = ground arith

find_up-tame : (start : Bool) (path : Bytes) → tame start path ≡ true → find_up path ≡ none
unfolding find_up further
find_up-tame start [] h = refl
find_up-tame start (a ∷ rest) h =
    rw (tame-begins_up start (a ∷ rest) h)
      (ap further (find_up-tame (a == b'/') rest (ground arith)))

drop_dot-tame : (path : Bytes) → tame true path ≡ true → drop_dot path ≡ path
unfolding drop_dot
drop_dot-tame [] h = refl
drop_dot-tame (a ∷ []) h = refl
drop_dot-tame (a ∷ b ∷ rest) h = ground arith

drop_dots-tame : (path : Bytes) → tame true path ≡ true → drop_dots path ≡ path
unfolding drop_dots
drop_dots-tame [] h = refl
drop_dots-tame (a ∷ []) h = refl
drop_dots-tame (a ∷ b ∷ []) h = refl
drop_dots-tame (a ∷ b ∷ c ∷ rest) h = ground arith

drop_tail-tame : (start : Bool) (path : Bytes) → tame start path ≡ true → drop_tail path ≡ path
unfolding drop_tail
drop_tail-tame start [] h = refl
drop_tail-tame start (a ∷ []) h = refl
drop_tail-tame start (a ∷ b ∷ []) h = ground arith
drop_tail-tame start (a ∷ b ∷ c ∷ rest) h =
    ap (λ t. a ∷ t) (drop_tail-tame (a == b'/') (b ∷ c ∷ rest) (ground arith))

-- A path in which no dot is at the beginning or behind a slash is left as it is, two slashes one behind
-- the other included.
pub normalize-tame :
    (fuel : ℕ) (path : Bytes) → tame true path ≡ true → normalize fuel path ≡ some path
unfolding normalize trim
normalize-tame fuel path h =
    ap trim (loop_done path fuel (find_up-tame true path h))
    ∙ ap some (
        ap (λ t. drop_tail (drop_dots t)) (drop_dot-tame path h)
        ∙ ap drop_tail (drop_dots-tame path h)
        ∙ drop_tail-tame true path h)
