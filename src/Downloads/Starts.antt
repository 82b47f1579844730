-- ===== src/Downloads/Starts.antt =====
-- Which of the downloads that wait are started, and what is started without a thread.
use d4x.Prelude.{
  ℕ, zero, suc, ◌-◌, ◌≤◌, ◌<◌, true, false, List, [], ◌∷◌, ◌++◌, ltb, ◌≡◌, ◌⊎◌, refl, arith, All,
  length, length-append, take, drop, append-nil, append_assoc, ap, sym, ◌∙◌,
}
use d4x.Downloads.{Downloads, add, del, count, without, dl_run, dl_wait, dl_stop, dl_complete}
use d4x.Downloads.Rules.{match_and_check, limit_check, limit_to_run}
use d4x.Downloads.Moves.{
  wait_step, breaks, is_broken, World, started, nonzero, move, try_to_run_download, run_wait_loop,
  try_to_run_wait, continue_stopped, continue_download,
}
use d4x.Downloads.Owned.{IsOwned, occurs}
use d4x.Downloads.Steps.{move-IsOwned}

module _ (w : World) where
  -- The first of the downloads that wait is in the list that it takes itself to be in.
  owner_of_first :
      (s : Downloads) (temp : ℕ) (rest : List ℕ)
      → IsOwned s
      → s.lists dl_wait ≡ temp ∷ rest
      → s.owner temp ≡ dl_wait
  unfolding IsOwned
  owner_of_first s temp rest h e = ground (arith, h temp dl_wait (omega arith), ap (occurs temp) e)

  started_first :
      (s : Downloads) (temp : ℕ) (rest : List ℕ)
      → s.owner temp ≡ dl_wait
      → s.lists dl_wait ≡ temp ∷ rest
      → ((move s temp dl_run).lists dl_run ≡ s.lists dl_run ++ temp ∷ [])
        × ((move s temp dl_run).lists dl_wait ≡ rest)
  unfolding move add del without
  started_first s temp rest o e = rw (o, e) (refl, ground arith)

  rule-move : (s : Downloads) (what key : ℕ) → (move s what key).rule ≡ s.rule
  unfolding move add del
  rule-move s what key = ground arith

  unruled-matched :
      (s : Downloads) (temp : ℕ) → w.find_match temp ≡ 0 → match_and_check w s temp false ≡ s
  unfolding match_and_check
  unruled-matched s temp f = ground arith

  unruled-counted : (s : Downloads) (temp : ℕ) → s.rule temp ≡ 0 → limit_to_run s temp ≡ s
  unfolding limit_to_run
  unruled-counted s temp r = ground arith

  unruled-checked : (s : Downloads) (temp : ℕ) → s.rule temp ≡ 0 → limit_check w s temp ≡ false
  unfolding limit_check
  unruled-checked s temp r = ground arith

  run_wait_go :
      (temp : ℕ) (rest : List ℕ) (s : Downloads)
      → ltb (count s dl_run) w.max_active ≡ true
      → breaks w s temp ≡ false
      → run_wait_loop w (temp ∷ rest) s ≡ run_wait_loop w rest (wait_step w s temp)
  unfolding run_wait_loop
  run_wait_go temp rest s lt b = rw (lt, b) refl

  try_started :
      (s : Downloads) (temp : ℕ)
      → w.starts temp ≡ true
      → count s dl_run < 50
      → try_to_run_download w s temp ≡ started
  unfolding try_to_run_download
  try_started s temp st lt = ground arith

  module _ (temp : ℕ) (s : Downloads) (f : w.find_match temp ≡ 0) (r : s.rule temp ≡ 0)
      (st : w.starts temp ≡ true) (lt : count s dl_run < 50) where
    wait_step-starts : wait_step w s temp ≡ move s temp dl_run
    unfolding wait_step
    wait_step-starts =
        rw (unruled-matched s temp f, unruled-checked s temp r)
          (rw (unruled-counted s temp r, try_started s temp st lt)
            (ap (λ t. move t temp dl_run)
              (ap (λ t. limit_to_run t temp) (unruled-matched s temp f)
                ∙ unruled-counted s temp r)))

    breaks-starts : breaks w s temp ≡ false
    unfolding breaks is_broken
    breaks-starts =
        rw (unruled-matched s temp f, unruled-checked s temp r)
          (rw (unruled-counted s temp r, try_started s temp st lt) refl)

  run_wait_step :
      (temp : ℕ) (rest : List ℕ) (s : Downloads)
      → w.find_match temp ≡ 0
      → s.rule temp ≡ 0
      → w.starts temp ≡ true
      → w.max_active ≤ 50
      → count s dl_run < w.max_active
      → run_wait_loop w (temp ∷ rest) s ≡ run_wait_loop w rest (move s temp dl_run)
  run_wait_step temp rest s f r st m lt =
      run_wait_go temp rest s (ground arith) (breaks-starts temp s f r st (omega (arith, m, lt)))
      ∙ ap (run_wait_loop w rest) (wait_step-starts temp s f r st (omega (arith, m, lt)))

  run_wait_loop_lem :
      (xs : List ℕ) (s : Downloads) (k : ℕ) (rule : ℕ → ℕ)
      → IsOwned s
      → s.rule ≡ rule
      → s.lists dl_wait ≡ xs
      → All (λ d. (w.find_match d ≡ 0) × (rule d ≡ 0) × (w.starts d ≡ true)) xs
      → w.max_active ≤ 50
      → k ≡ w.max_active - count s dl_run
      → ((run_wait_loop w xs s).lists dl_run ≡ s.lists dl_run ++ take k xs)
        × ((run_wait_loop w xs s).lists dl_wait ≡ drop k xs)
  unfolding run_wait_loop count
  run_wait_loop_lem [] s zero rule h u e a m q = (sym (append-nil (s.lists dl_run)), e)
  run_wait_loop_lem [] s (suc k) rule h u e a m q = (sym (append-nil (s.lists dl_run)), e)
  run_wait_loop_lem (temp ∷ rest) s zero rule h u e a m q =
      ground (arith, append-nil (s.lists dl_run))
  run_wait_loop_lem (temp ∷ rest) s (suc k) rule h u e ((f, r, st), a) m q =
      let (runs, waits) = started_first s temp rest (owner_of_first s temp rest h e) e in
      let fewer : k ≡ w.max_active - count (move s temp dl_run) dl_run =
        omega (arith, ap length runs, length-append (s.lists dl_run) (temp ∷ []), q) in
      let (run', wait') =
        run_wait_loop_lem rest (move s temp dl_run) k rule (move-IsOwned s temp dl_run h)
          (rule-move s temp dl_run ∙ u) waits a m fewer in
      rw (run_wait_step temp rest s f (ap (λ g. g temp) u ∙ r) st m (omega (arith, q))) (
        run'
            ∙ ap (λ l. l ++ take k rest) runs
            ∙ append_assoc (s.lists dl_run) (temp ∷ []) (take k rest),
        wait',
      )

  -- If every download is in the list that its owner field names and in no other one, DONTRY2RUN is not
  -- set, no rule is found or kept for the downloads that wait, their threads can be started, and
  -- MAX_ACTIVE is not above 50, then try_to_run_wait starts as many of them as MAX_ACTIVE leaves room
  -- for, the first ones, in their order: the others wait on.
  pub try_to_run_wait-starts :
      (s : Downloads)
      → IsOwned s
      → s.dont_try_to_run ≡ false
      → All (λ d. (w.find_match d ≡ 0) × (s.rule d ≡ 0) × (w.starts d ≡ true)) (s.lists dl_wait)
      → w.max_active ≤ 50
      → ((try_to_run_wait w s).lists dl_run
          ≡ s.lists dl_run ++ take (w.max_active - count s dl_run) (s.lists dl_wait))
        × ((try_to_run_wait w s).lists dl_wait
            ≡ drop (w.max_active - count s dl_run) (s.lists dl_wait))
  unfolding try_to_run_wait
  try_to_run_wait-starts s h r a m = simp r (
      run_wait_loop_lem (s.lists dl_wait) s (w.max_active - count s dl_run) s.rule h refl refl a m
        refl)

  -- Where ALLOW_FORCE_RUN is set, a download that is neither paused nor running nor waiting for its
  -- thread or its size is put into the list of those that run by continue_download although its
  -- thread could not be started, if fewer than 50 run.
  pub continue_download-forced :
      (s : Downloads) (what : ℕ)
      → w.offline_mode ≡ false
      → w.allow_force_run ≡ true
      → w.starts what ≡ false
      → count s dl_run < 50
      → (s.owner what ≡ dl_stop) ⊎ (s.owner what ≡ dl_complete)
      → continue_download w s what ≡ move s what dl_run
  unfolding continue_download continue_stopped nonzero try_to_run_download
  continue_download-forced s what f a st lt o = ground arith
