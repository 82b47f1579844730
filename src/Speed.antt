-- ===== src/Speed.antt =====
-- main/speed.cc and main/speed.h: how the bandwidth is shared. A Speed is what a download may read
-- until the next round; it is below 0 if the download waits for it. The locks that make it wait, and
-- sums that do not fit into 64 bits, are not modelled. `mark` of the rounds is what a round does to
-- each Speed first.
pub mod Shares
pub mod Bounds
mod Tests
use d4x.Prelude.{
  ℕ, zero, suc, ◌+◌, Bool, true, false, ◌&&◌, List, [], ◌∷◌, map, ltb, if◌then◌else◌, length,
}
use d4x.Prelude.Int.{ℤ, pos, negsuc, ◌+ℤ◌, ◌-ℤ◌, ltb_ℤ, quot, times}

-- d4x::Speed
pub record Speed : Type 0 where
  pub last_gived : ℤ
  pub bytes : ℤ
  pub base : ℤ
  pub base2 : ℤ

-- `bytes<0`
unfoldable pub waits : Speed → Bool
waits s = ltb_ℤ s.bytes (pos 0)

-- Both branches of Speed::set.
unfoldable pub set : ℤ → Speed → Speed
set a s = record s { last_gived = a; bytes = a }

-- _set_limitation_
unfoldable pub set_limitation : ℕ → Speed → Speed
unfolding set quot times
set_limitation period s = set (quot (times period s.base) 1000) s

-- `(last_gived>0?last_gived:a)-bytes`, and 1 if that is not above 0.
unfoldable pub next_bytes : ℤ → Speed → ℤ
unfolding ◌-ℤ◌
next_bytes a s =
    let temp = (if ltb_ℤ (pos 0) s.last_gived then s.last_gived else a) -ℤ s.bytes in
    if ltb_ℤ (pos 0) temp then temp else pos 1

-- Speed::init: the Speed and the result.
unfoldable pub init : ℤ → Speed → Speed × ℤ
unfolding waits set next_bytes ◌-ℤ◌
init a s = if waits s then (set a s, pos 0) else (set (next_bytes a s) s, a -ℤ next_bytes a s)

-- Speed::decrement, up to the waiting.
unfoldable pub decrement : ℤ → Speed → Speed
unfolding ◌-ℤ◌
decrement a s = record s { bytes = s.bytes -ℤ a }

-- The Speeds that are served at once, those that are put off, and Full.
pub record Pass : Type 0 where
  pub lst : List Speed
  pub skiplst : List Speed
  pub full : ℤ

unfoldable pub serve : Speed × ℤ → Pass → Pass
unfolding ◌+ℤ◌
serve (s, given) p = record p { lst = s ∷ p.lst; full = given +ℤ p.full }

unfoldable pub put_off : Speed → Pass → Pass
put_off s p = record p { skiplst = s ∷ p.skiplst }

-- The `for` loop of the two schedules; `off` is the test with which a Speed is put off.
unfoldable pub first_pass : (Speed → Bool) → (Speed → Speed) → ℤ → List Speed → Pass
unfolding serve put_off init
first_pass off mark part [] = record { lst = []; skiplst = []; full = pos 0 }
first_pass off mark part (s ∷ speeds) =
    let p = first_pass off mark part speeds in
    if off (mark s) then put_off (mark s) p else serve (init part (mark s)) p

-- `part+=Full/(size-Num)`, if any was put off.
unfoldable pub last_part : ℤ → Pass → ℤ
unfolding ◌+ℤ◌ quot
last_part part p = if ltb 0 (length p.skiplst) then part +ℤ quot p.full (length p.skiplst) else part

-- The last loop of the two schedules.
unfoldable pub second_pass : ℤ → List Speed → List Speed
unfolding init
second_pass part [] = []
second_pass part (s ∷ skiplst) = (init part s).0 ∷ second_pass part skiplst

-- `a / Num`, and 1 if that is not above 0.
unfoldable pub part_of : ℤ → ℕ → ℤ
unfolding quot
part_of a n = if ltb_ℤ (pos 0) (quot a n) then quot a n else pos 1

-- Is the number 0?
unfoldable pub is_zero : ℤ → Bool
is_zero (pos zero) = true
is_zero (pos (suc n)) = false
is_zero (negsuc n) = false

unfoldable pub share : (Speed → Bool) → (Speed → Speed) → ℤ → List Speed → List Speed × List Speed
unfolding first_pass second_pass last_part
share off mark part speeds =
    let p = first_pass off mark part speeds in (p.lst, second_pass (last_part part p) p.skiplst)

-- SpeedQueue::schedule of all Speeds with a limit: those that were served at once, and those that
-- were put off. `speeds` is the set `tolimit` in its order.
unfoldable pub schedule : ℤ → Bool → List Speed → List Speed × List Speed
unfolding share part_of is_zero waits
schedule a flag [] = ([], [])
schedule a flag (s ∷ speeds) =
    let shared =
      share (λ s. waits s && flag) (λ s. s) (part_of a (suc (length speeds))) (s ∷ speeds) in
    if is_zero a then (s ∷ speeds, []) else shared

-- SpeedQueue::schedule of the Speeds of a queue.
unfoldable pub schedule_list : ℤ → List Speed → List Speed × List Speed
unfolding share part_of is_zero waits
schedule_list a [] = ([], [])
schedule_list a (s ∷ lst) =
    let part = part_of a (suc (length lst)) in
    let shared = share waits (λ s. record s { base2 = part }) part (s ∷ lst) in
    if is_zero a then (s ∷ lst, []) else shared
