-- ===== src/Paths.antt =====
-- main/path.cc: d4x::Path, a string that is normalized when it is made of another and when a path is
-- appended to it. Positions and lengths are below 2^64.
pub mod Loop
pub mod Tame
mod Tests
use d4x.Prelude.{
  ℕ, zero, suc, ◌+◌, ◌-◌, ◌≤◌, Bool, true, false, ◌&&◌, ◌||◌, Option, none, some, List, [], ◌∷◌,
  ◌++◌, ◌==◌, ltb, leb, if◌then◌else◌, Bytes, take, drop, length,
}

-- Does the string begin with "/../"?
unfoldable pub begins_up : Bytes → Bool
begins_up (a ∷ b ∷ c ∷ d ∷ rest) = (a == b'/') && (b == b'.') && (c == b'.') && (d == b'/')
begins_up _ = false

-- One more, if there is a position.
unfoldable pub further : Option ℕ → Option ℕ
further none = none
further (some p) = some (suc p)

-- `find ("/../")`
unfoldable pub find_up : Bytes → Option ℕ
unfolding begins_up further
find_up [] = none
find_up (a ∷ rest) =
    let more = further (find_up rest) in if begins_up (a ∷ rest) then some 0 else more

unfoldable pub or_here : Bool → Option ℕ → Option ℕ
or_here here (some p) = some (suc p)
or_here here none = if here then some 0 else none

-- `rfind ('/')`
unfoldable pub rfind_slash : Bytes → Option ℕ
unfolding or_here
rfind_slash [] = none
rfind_slash (a ∷ rest) = or_here (a == b'/') (rfind_slash rest)

-- `rfind ('/', p-1)`: for p = 0 the position p-1 is npos, and the whole of the string is searched.
unfoldable pub slash_before : Bytes → ℕ → Option ℕ
unfolding rfind_slash
slash_before path p = if p == 0 then rfind_slash path else rfind_slash (take p path)

-- `replace (r, p+4-r, "/")`: a count below zero wraps around, so that all from r on is replaced.
unfoldable pub cut : Bytes → ℕ → Option ℕ → Bytes
cut path p none = b'/' ∷ drop (p + 4) path
cut path p (some r) =
    if ltb (p + 4) r then take r path ++ b'/' ∷ [] else take r path ++ b'/' ∷ drop (p + 4) path

-- The body of the third loop of Path::normalize, where it finds "/../" at p.
unfoldable pub up : Bytes → ℕ → Bytes
unfolding slash_before cut
up path p = cut path p (slash_before path p)

-- The third loop of Path::normalize, with the rounds that it may take; the first two, which search
-- from npos on, find nothing.
unfoldable pub up_loop : ℕ → Bytes → Option Bytes
unfolding find_up up
up_loop zero path = elim (find_up path) [ none ↦ some path | some p ↦ none ]
up_loop (suc fuel) path = elim (find_up path) [
  | none ↦ some path
  | some p ↦ up_loop fuel (up path p)
]

-- `if (substr (0,2)=="./") replace (0,2,"/");`
unfoldable pub drop_dot : Bytes → Bytes
drop_dot [] = []
drop_dot (a ∷ []) = a ∷ []
drop_dot (a ∷ b ∷ rest) = if (a == b'.') && (b == b'/') then b'/' ∷ rest else a ∷ b ∷ rest

-- `if (substr (0,3)=="../") replace (0,3,"/");`
unfoldable pub drop_dots : Bytes → Bytes
drop_dots [] = []
drop_dots (a ∷ []) = a ∷ []
drop_dots (a ∷ b ∷ []) = a ∷ b ∷ []
drop_dots (a ∷ b ∷ c ∷ rest) =
    if (a == b'.') && ((b == b'.') && (c == b'/')) then b'/' ∷ rest else a ∷ b ∷ c ∷ rest

-- A "/." at the end becomes "/".
unfoldable pub drop_tail : Bytes → Bytes
drop_tail [] = []
drop_tail (a ∷ []) = a ∷ []
drop_tail (a ∷ b ∷ []) = if (a == b'/') && (b == b'.') then b'/' ∷ [] else a ∷ b ∷ []
drop_tail (a ∷ b ∷ c ∷ rest) = a ∷ drop_tail (b ∷ c ∷ rest)

unfoldable pub trim : Option Bytes → Option Bytes
unfolding drop_dot drop_dots drop_tail
trim none = none
trim (some path) = some (drop_tail (drop_dots (drop_dot path)))

-- Path::normalize
unfoldable pub normalize : ℕ → Bytes → Option Bytes
unfolding up_loop trim
normalize fuel path = trim (up_loop fuel path)

-- `if (_p[0]!='/') +='/'`, and the path appended.
unfoldable pub glue : Bytes → Bytes → Bytes
glue path [] = path
glue path (c ∷ p) = if c == b'/' then path ++ c ∷ p else path ++ b'/' ∷ c ∷ p

-- Path::operator/= and Path::operator/
unfoldable pub append : ℕ → Bytes → Bytes → Option Bytes
unfolding glue normalize
append fuel path [] = some path
append fuel path (c ∷ p) = normalize fuel (glue path (c ∷ p))
