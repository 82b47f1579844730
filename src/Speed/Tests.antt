-- ===== src/Speed/Tests.antt =====
-- A round of three downloads, two of which wait.
use d4x.Prelude.{◌+◌, ◌<◌, length, arith, List, [], ◌∷◌, true, ◌≡◌, refl}
use d4x.Prelude.Int.{ℤ, pos, negsuc, pos_part, neg_part, ◌+ℤ◌, ◌-ℤ◌, ◌≤ℤ◌, times}
use d4x.Speed.{Speed, waits, first_pass, share, schedule}
use d4x.Speed.Bounds.{put_off_of, schedule-le}
use d4x.Speed.Shares.{total, share-total}

abbrev speed_of : ℤ → Speed
speed_of n = record { last_gived = pos 10; bytes = n; base = pos 0; base2 = pos 0 }

abbrev speeds : List Speed
speeds = speed_of (negsuc 0) ∷ speed_of (pos 7) ∷ speed_of (negsuc 4) ∷ []

-- The second one has 7 of its 10 bytes left: it gets 3, and the two that wait share what it leaves.
schedule_runs : schedule (pos 30) true speeds ≡ (
  record (speed_of (pos 3)) { last_gived = pos 3 } ∷ [],
  record (speed_of (pos 13)) { last_gived = pos 13 }
      ∷ record (speed_of (pos 13)) { last_gived = pos 13 }
      ∷ [],
)
unfolding schedule
schedule_runs = refl

some_wait : 0 < length (put_off_of 30 true speeds)
unfolding first_pass
some_wait = omega arith

schedule-le_example :
    total (schedule (pos 30) true speeds).0 +ℤ total (schedule (pos 30) true speeds).1 +ℤ pos 1
    ≤ℤ pos (30 + length (put_off_of 30 true speeds))
schedule-le_example = schedule-le 30 true speeds (omega arith) some_wait

-- One Speed had more than its part, and nothing of it is used up: the one that waits gets a part below
-- 0.
negative_part :
    schedule
      (pos 200)
      true
      (record (speed_of (pos 0)) { last_gived = pos 1000 } ∷ speed_of (negsuc 0) ∷ [])
    ≡ (
      record (speed_of (pos 1000)) { last_gived = pos 1000 } ∷ [],
      record (speed_of (negsuc 799)) { last_gived = negsuc 799 } ∷ [],
    )
unfolding schedule
negative_part = refl

one_put_off : 0 < length (first_pass waits (λ s. s) (pos 10) speeds).skiplst
unfolding first_pass
one_put_off = omega arith

share-total_example :
    (rest : ℤ) × (total (share waits (λ s. s) (pos 10) speeds).0
        +ℤ total (share waits (λ s. s) (pos 10) speeds).1
      ≡ times (length speeds) (pos 10) -ℤ rest)
    × (pos_part rest < length (first_pass waits (λ s. s) (pos 10) speeds).skiplst)
    × (neg_part rest < length (first_pass waits (λ s. s) (pos 10) speeds).skiplst)
share-total_example = share-total waits (λ s. s) (pos 10) speeds (λ s h. h) one_put_off
