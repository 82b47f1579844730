-- ===== src/Downloads/Limit.antt =====
-- How many downloads are in a list after the downloads that wait were looked through.
use d4x.Prelude.{
  ℕ, ◌+◌, ◌≤◌, ◌≢◌, false, List, [], ◌∷◌, max, ◌==◌, ltb, if◌then◌else◌, ◌≡◌, arith, length,
  length-append, if_intro, ap,
}
use d4x.Downloads.{Downloads, add, del, count, without, dl_run, dl_wait, dl_limit}
use d4x.Downloads.Rules.{match_and_check, limit_to_run}
use d4x.Downloads.Moves.{wait_step, breaks, World, move, run_wait_loop, try_to_run_wait}

length-without : (w : ℕ) (xs : List ℕ) → length (without w xs) ≤ length xs
unfolding without
length-without w [] = omega arith
length-without w (a ∷ xs) = ground (arith, length-without w xs)

pub count-move :
    (s : Downloads) (what key k : ℕ)
    → count (move s what key) k ≤ count s k + (if key == k then 1 else 0)
unfolding count move add del
count-move s what key k = ground (
  arith,
  length-without what (s.lists k),
  length-append (s.lists k) (what ∷ []),
  length-append (without what (s.lists k)) (what ∷ []),
)

pub match_and_check-count :
    (w : World) (s : Downloads) (what k : ℕ)
    → k ≢ dl_limit
    → count (match_and_check w s what false) k ≤ count s k
unfolding match_and_check count
match_and_check-count w s what k n = ground (arith, count-move s what dl_limit k)

lists-limit_to_run : (s : Downloads) (what : ℕ) → (limit_to_run s what).lists ≡ s.lists
unfolding limit_to_run
lists-limit_to_run s what = ground arith

module _ (w : World) where
  wait_step-count :
      (s : Downloads) (temp k : ℕ)
      → k ≢ dl_limit
      → count (wait_step w s temp) k ≤ count s k + (if dl_run == k then 1 else 0)
  unfolding wait_step count
  wait_step-count s temp k n = ground (
    arith,
    match_and_check-count w s temp k,
    ap (λ l. length (l k)) (lists-limit_to_run (match_and_check w s temp false) temp),
    count-move (limit_to_run (match_and_check w s temp false) temp) temp dl_run k,
  )

  -- Of the other lists none gets longer.
  run_wait_loop-others :
      (xs : List ℕ) (s : Downloads) (k : ℕ)
      → k ≢ dl_limit
      → k ≢ dl_run
      → count (run_wait_loop w xs s) k ≤ count s k
  unfolding run_wait_loop
  run_wait_loop-others [] s k n r = omega arith
  run_wait_loop-others (temp ∷ rest) s k n r =
      let step = wait_step-count s temp k n in
      let one : count (wait_step w s temp) k ≤ count s k = ground arith in
      let more = run_wait_loop-others rest (wait_step w s temp) k n r in
      if_intro (λ t. count t k ≤ count s k) (ltb (count s dl_run) w.max_active)
        (λ _.
          if_intro (λ t. count t k ≤ count s k) (breaks w s temp) (λ _. one)
            (λ _. omega (arith, more, one)))
        (λ _. omega arith)

  pub try_to_run_wait-others :
      (s : Downloads) (k : ℕ)
      → k ≢ dl_limit
      → k ≢ dl_run
      → count (try_to_run_wait w s) k ≤ count s k
  unfolding try_to_run_wait
  try_to_run_wait-others s k n r =
      if_intro (λ t. count t k ≤ count s k) s.dont_try_to_run (λ _. omega arith)
        (λ _. run_wait_loop-others (s.lists dl_wait) s k n r)

  run_wait_loop-limit :
      (xs : List ℕ) (s : Downloads) (n : ℕ)
      → count s dl_run ≤ n
      → w.max_active ≤ n
      → count (run_wait_loop w xs s) dl_run ≤ n
  unfolding run_wait_loop
  run_wait_loop-limit [] s n h m = h
  run_wait_loop-limit (temp ∷ rest) s n h m =
      let grows = wait_step-count s temp dl_run (λ e. absurd (omega (e, arith))) in
      if_intro (λ t. count t dl_run ≤ n) (ltb (count s dl_run) w.max_active)
        (λ lt.
          let one : count (wait_step w s temp) dl_run ≤ n = ground arith in
          if_intro (λ t. count t dl_run ≤ n) (breaks w s temp) (λ _. one)
            (λ _. run_wait_loop-limit rest (wait_step w s temp) n one m))
        (λ _. h)

  -- A round of try_to_run_wait lets no more downloads run than MAX_ACTIVE, or than ran before if
  -- those were more.
  pub try_to_run_wait-limit :
      (s : Downloads) → count (try_to_run_wait w s) dl_run ≤ max (count s dl_run) w.max_active
  unfolding try_to_run_wait
  try_to_run_wait-limit s =
      if_intro (λ t. count t dl_run ≤ max (count s dl_run) w.max_active) s.dont_try_to_run
        (λ _. omega arith)
        (λ _.
          run_wait_loop-limit (s.lists dl_wait) s (max (count s dl_run) w.max_active) (omega arith)
            (omega arith))
