-- ===== src/Update/Tests.antt =====
-- Runs of the lists of main/dqueue.cc on three downloads, and the theorems on them.
use d4x.Prelude.{ℕ, suc, ◌<◌, ◌≡◌, [], ◌∷◌, refl, arith, if◌then◌else◌, ◌==◌}
use d4x.Update.{Update, del, update, add_stopped, del_s}
use d4x.Update.Chain.{after, before, first_of, last_of, without}
use d4x.Update.Redraw.{Represents, update-Represents, del-Represents}
use d4x.Update.Stopped.{Stops, add_stopped-Stops, taken, del_s-Stops, add_stopped-last}

abbrev empty : Update
empty = record {
  first = 0;
  last = 0;
  first_s = 0;
  last_s = 0;
  next2update = λ _. 0;
  prev2update = λ _. 0;
  next2stop = λ _. 0;
  status = λ _. 0;
}

lt_add : (k : ℕ) → 0 < suc k
lt_add k = ground arith

-- Download 9 is a part of 5.
abbrev parts : ℕ → ℕ
parts q = if q == 9 then 5 else 0

empty_list : Represents empty []
unfolding first_of last_of after before
empty_list = (refl, refl, tt, λ e p. (refl, refl))

update-Represents_example : Represents (update parts (4 ∷ 9 ∷ 6 ∷ 5 ∷ []) empty) (4 ∷ 5 ∷ 6 ∷ [])
update-Represents_example =
    update-Represents parts (4 ∷ 9 ∷ 6 ∷ 5 ∷ []) empty []
      (lt_add 3, (lt_add 8, (lt_add 5, (lt_add 4, tt)))) empty_list

four_marked : Represents (update parts (4 ∷ []) empty) (4 ∷ [])
four_marked = update-Represents parts (4 ∷ []) empty [] (lt_add 3, tt) empty_list

two_marked : Represents (update parts (4 ∷ 6 ∷ []) empty) (4 ∷ 6 ∷ [])
two_marked = update-Represents parts (4 ∷ 6 ∷ []) empty [] (lt_add 3, (lt_add 5, tt)) empty_list

del-Represents_example : Represents (del (update parts (4 ∷ 6 ∷ []) empty) 6) (4 ∷ [])
unfolding without
del-Represents_example = del-Represents (update parts (4 ∷ 6 ∷ []) empty) (4 ∷ 6 ∷ []) 6 two_marked

four_stopped : Stops (add_stopped empty 4 1) (4 ∷ [])
unfolding first_of last_of after
four_stopped = (add_stopped-Stops empty [] 4 1 (refl, refl, tt, λ e p. refl) (lt_add 3) refl).0

del_s-Stops_example : Stops (del_s (add_stopped empty 4 1)) []
del_s-Stops_example = del_s-Stops (add_stopped empty 4 1) 4 [] four_stopped

two_stopped : Stops (add_stopped (add_stopped empty 4 1) 6 1) (4 ∷ 6 ∷ [])
two_stopped =
    (add_stopped-Stops (add_stopped empty 4 1) (4 ∷ []) 6 1 four_stopped (lt_add 5) refl).0

add_stopped-last_example :
    ((add_stopped (add_stopped empty 4 1) 6 1).next2stop 6 ≡ 0)
    × ((add_stopped (add_stopped (add_stopped empty 4 1) 6 1) 6 2).next2stop 6 ≡ 6)
    × Stops (taken 2 (add_stopped (add_stopped (add_stopped empty 4 1) 6 1) 6 2)) (6 ∷ [])
add_stopped-last_example =
    add_stopped-last (add_stopped (add_stopped empty 4 1) 6 1) (4 ∷ []) 6 2 two_stopped
