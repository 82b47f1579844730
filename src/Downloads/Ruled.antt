-- ===== src/Downloads/Ruled.antt =====
-- The rules of the URL manager: what limit_check guarantees, and a download that its rule keeps.
use d4x.Prelude.{
  ℕ, suc, ◌+◌, ◌≤◌, ◌<◌, ◌≢◌, true, false, List, [], ◌∷◌, ◌++◌, ltb, ◌≡◌, refl, arith, if_intro, ap,
  ◌∙◌,
}
use d4x.Downloads.{Downloads, add, del, count, without, dl_run, dl_wait, dl_limit}
use d4x.Downloads.Rules.{match_and_check, limit_check, limit_to_run}
use d4x.Downloads.Limit.{match_and_check-count}
use d4x.Downloads.Owned.{occurs}
use d4x.Downloads.Moves.{
  World, broken, refused, started, move, wait_step, breaks, is_broken, try_to_run_download,
  run_wait_loop, try_to_run_wait,
}

without-append : (d : ℕ) (xs : List ℕ) → occurs d xs ≡ 0 → without d (xs ++ d ∷ []) ≡ xs
unfolding without
without-append d [] h = ground arith
without-append d (a ∷ xs) h = ground (arith, without-append d xs)

module _ (w : World) where
  -- No rule lets more downloads run than its limit: cur_limit is not above con_limit.
  unfoldable pub IsLimited : Downloads → Type 0
  IsLimited s = (r : ℕ) → s.raised r ≤ w.con_limit r + s.lowered r

  move-IsLimited : (s : Downloads) (what key : ℕ) → IsLimited s → IsLimited (move s what key)
  unfolding IsLimited move add del
  move-IsLimited s what key h r = ground (arith, h r)

  match_and_check-IsLimited :
      (s : Downloads) (what : ℕ) → IsLimited s → IsLimited (match_and_check w s what false)
  unfolding IsLimited match_and_check
  match_and_check-IsLimited s what h r = ground (arith, h r, move-IsLimited s what dl_limit h r)

  limit_to_run-IsLimited :
      (s : Downloads) (what : ℕ)
      → limit_check w s what ≡ false
      → IsLimited s
      → IsLimited (limit_to_run s what)
  unfolding IsLimited limit_to_run limit_check
  limit_to_run-IsLimited s what c h r = ground (arith, h r)

  wait_step-IsLimited : (s : Downloads) (temp : ℕ) → IsLimited s → IsLimited (wait_step w s temp)
  unfolding wait_step
  wait_step-IsLimited s temp h =
      let m : Downloads = match_and_check w s temp false in
      let matched : IsLimited m = match_and_check-IsLimited s temp h in
      let t : Downloads = limit_to_run m temp in
      if_intro IsLimited (limit_check w m temp) (λ _. matched)
        (λ c.
          let counted : IsLimited t = limit_to_run-IsLimited m temp c matched in
          elim (try_to_run_download w t temp)
            as (λ r.
              IsLimited (elim r [ broken ↦ t | refused ↦ t | started ↦ move t temp dl_run ])) [
                | broken ↦ counted
                | refused ↦ counted
                | started ↦ move-IsLimited t temp dl_run counted
              ])

  run_wait_loop-IsLimited :
      (xs : List ℕ) (s : Downloads) → IsLimited s → IsLimited (run_wait_loop w xs s)
  unfolding run_wait_loop
  run_wait_loop-IsLimited [] s h = h
  run_wait_loop-IsLimited (temp ∷ rest) s h =
      let step = wait_step-IsLimited s temp h in
      let more = run_wait_loop-IsLimited rest (wait_step w s temp) step in
      if_intro IsLimited (ltb (count s dl_run) w.max_active)
        (λ _. if_intro IsLimited (breaks w s temp) (λ _. step) (λ _. more)) (λ _. h)

  -- If the number of running downloads that a rule counts is above the limit of no rule, this stays so
  -- when the downloads that wait are looked through.
  pub try_to_run_wait-IsLimited : (s : Downloads) → IsLimited s → IsLimited (try_to_run_wait w s)
  unfolding try_to_run_wait
  try_to_run_wait-IsLimited s h =
      if_intro IsLimited s.dont_try_to_run (λ _. h)
        (λ _. run_wait_loop-IsLimited (s.lists dl_wait) s h)

  module _ (s : Downloads) (temp : ℕ) (rest : List ℕ) (e : s.lists dl_wait ≡ temp ∷ rest)
      (found : w.find_match temp ≢ 0) (limits : 0 < w.con_limit (w.find_match temp))
      (free : s.rule temp ≡ 0)
      (below : s.raised (w.find_match temp)
        < w.con_limit (w.find_match temp) + s.lowered (w.find_match temp))
      (dead : w.starts temp ≡ false) where
    -- The download with its link, in the list DL_LIMIT.
    linked : Downloads
    linked = match_and_check w s temp false

    linked_lem :
        (linked.rule temp ≡ w.find_match temp)
        × (linked.owner temp ≡ dl_limit)
        × (linked.raised (w.find_match temp) ≡ s.raised (w.find_match temp))
        × (linked.lowered (w.find_match temp) ≡ s.lowered (w.find_match temp))
    unfolding linked match_and_check move add del
    linked_lem = (ground arith, ground arith, ground arith, ground arith)

    lists-linked :
        (linked.limited (w.find_match temp) ≡ s.limited (w.find_match temp) ++ temp ∷ [])
        × (linked.lim_run (w.find_match temp) ≡ s.lim_run (w.find_match temp))
    unfolding linked match_and_check move add del
    lists-linked = (ground arith, ground arith)

    count-linked : count linked dl_run ≤ count s dl_run
    unfolding linked
    count-linked = match_and_check-count w s temp dl_run (λ e. absurd (omega (e, arith)))

    counted_lem :
        ((limit_to_run linked temp).owner temp ≡ dl_limit)
        × ((limit_to_run linked temp).held temp ≡ false)
        × ((limit_to_run linked temp).raised (w.find_match temp)
            ≡ suc (s.raised (w.find_match temp)))
        × (count (limit_to_run linked temp) dl_run ≡ count linked dl_run)
    unfolding limit_to_run count
    counted_lem =
        let (r, o, a, b) = linked_lem in (ground arith, ground arith, ground arith, ground arith)

    lists-counted :
        occurs temp (s.limited (w.find_match temp)) ≡ 0
        → ((limit_to_run linked temp).limited (w.find_match temp) ≡ s.limited (w.find_match temp))
          × ((limit_to_run linked temp).lim_run (w.find_match temp)
              ≡ s.lim_run (w.find_match temp) ++ temp ∷ [])
    unfolding limit_to_run
    lists-counted absent =
        let (r, o, a, b) = linked_lem in
        let (l, m) = lists-linked in
        (
          ground (arith, l, without-append temp (s.limited (w.find_match temp)) absent),
          ground (arith, m),
        )

    not_checked : limit_check w linked temp ≡ false
    unfolding limit_check
    not_checked = let (r, o, a, b) = linked_lem in ground arith

    module _ (few : count s dl_run < 50) (room : count s dl_run < w.max_active) where
      is_broken-kept : try_to_run_download w (limit_to_run linked temp) temp ≡ broken
      unfolding try_to_run_download
      is_broken-kept = let (o, h, r, c) = counted_lem in ground (arith, count-linked)

      kept : (wait_step w s temp ≡ limit_to_run linked temp) × (breaks w s temp ≡ true)
      unfolding wait_step breaks is_broken linked
      kept = (rw (not_checked, is_broken-kept) refl, rw (not_checked, is_broken-kept) refl)

      stops_there : run_wait_loop w (temp ∷ rest) s ≡ wait_step w s temp
      unfolding run_wait_loop
      stops_there =
          let lt : ltb (count s dl_run) w.max_active ≡ true = ground arith in rw (lt, kept.1) refl

      looked_through :
          s.dont_try_to_run ≡ false → try_to_run_wait w s ≡ run_wait_loop w (s.lists dl_wait) s
      unfolding try_to_run_wait
      looked_through d = simp d refl

      -- The first download that waits has no link to a rule, matches one with a limit above 0 that is
      -- not reached, and is not in the list of the downloads that this rule will let wait again; its
      -- thread cannot be started. DONTRY2RUN is not set, and fewer downloads run than MAX_ACTIVE and
      -- fewer than 50. Then try_to_run_wait leaves it with DL_LIMIT as its owner, counted by the rule
      -- as one that runs: the rule's list of those that it will let wait again is as before, without
      -- the download, which is the last one in the rule's list of those that run, and whose link is
      -- marked as one of these.
      pub try_to_run_wait-keeps :
          s.dont_try_to_run ≡ false
          → occurs temp (s.limited (w.find_match temp)) ≡ 0
          → ((try_to_run_wait w s).owner temp ≡ dl_limit)
            × ((try_to_run_wait w s).held temp ≡ false)
            × ((try_to_run_wait w s).limited (w.find_match temp) ≡ s.limited (w.find_match temp))
            × ((try_to_run_wait w s).lim_run (w.find_match temp)
                ≡ s.lim_run (w.find_match temp) ++ temp ∷ [])
            × ((try_to_run_wait w s).raised (w.find_match temp)
                ≡ suc (s.raised (w.find_match temp)))
      try_to_run_wait-keeps d absent =
          let (o, h, r, c) = counted_lem in
          let (l, m) = lists-counted absent in
          rw (looked_through d ∙ ap (λ xs. run_wait_loop w xs s) e ∙ stops_there ∙ kept.0)
            (o, h, l, m, r)
