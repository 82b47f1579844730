-- ===== src/Downloads/Rerun.antt =====
-- tMain::rerun_failed: each round takes a download out of the list of the failed ones.
use d4x.Prelude.{
  ℕ, zero, suc, ◌+◌, ◌≤◌, ◌<◌, false, ◌&&◌, ◌||◌, not, Option, none, some, List, [], ◌∷◌, ◌==◌, ◌≡◌,
  refl, arith, if_intro, ap, ◌∙◌, length,
}
use d4x.Downloads.{Downloads, add, del, insert_before, count, dl_run, dl_stop, dl_wait, dl_pause}
use d4x.Downloads.Moves.{
  World, move, nonzero, try_to_run_download, try_to_run_wait, first_row, goes_last, insert_at_row,
  insert_into_wait_list, continue_stopped, continue_download,
}
use d4x.Downloads.Owned.{IsOwned, occurs, del-IsOwned}
use d4x.Downloads.Limit.{try_to_run_wait-others}
use d4x.Downloads.Counter.{length-without}
use d4x.Downloads.Steps.{continue_download-IsOwned}
use d4x.Downloads.Whole.{rerun_next, rerun_none, first_owner}
use d4x.Downloads.Lists.{rerun_failed}

count-del :
    (s : Downloads) (what : ℕ)
    → IsOwned s
    → s.owner what ≡ dl_stop
    → count (del s what) dl_stop + 1 ≡ count s dl_stop
unfolding IsOwned count del
count-del s what h o =
    ground (arith, h what dl_stop (omega arith), length-without what (s.lists dl_stop))

count-add : (s : Downloads) (what : ℕ) → count (add s what dl_run) dl_stop ≡ count s dl_stop
unfolding count add
count-add s what = refl

count-wait : (s : Downloads) (what : ℕ) → count (add s what dl_wait) dl_stop ≡ count s dl_stop
unfolding count add
count-wait s what = refl

module _ (w : World) where
  first_row-occurs :
      (xs : List ℕ) (what place : ℕ) → first_row w xs what ≡ some place → 0 < occurs place xs
  unfolding first_row
  first_row-occurs [] what place e = ground arith
  first_row-occurs (a ∷ rest) what place e = ground (arith, first_row-occurs rest what place)

  count-insert_at_row :
      (s : Downloads) (what : ℕ) (row : Option ℕ)
      → ((place : ℕ) → row ≡ some place → s.owner place ≡ dl_wait)
      → count (insert_at_row w s what row) dl_stop ≡ count s dl_stop
  unfolding count insert_at_row insert_before
  count-insert_at_row s what none h = refl
  count-insert_at_row s what (some place) h = ground (arith, h place refl)

  count-insert_into_wait_list :
      (s : Downloads) (what : ℕ)
      → IsOwned s
      → count (insert_into_wait_list w s what) dl_stop ≡ count s dl_stop
  unfolding insert_into_wait_list IsOwned
  count-insert_into_wait_list s what h =
      if_intro (λ t. count t dl_stop ≡ count s dl_stop)
        (w.without_face || goes_last w (s.lists dl_wait) what) (λ _. count-wait s what)
        (λ _. count-insert_at_row s what (first_row w (s.lists dl_wait) what) (λ place e.
          ground (
            arith,
            h place dl_wait (omega arith),
            first_row-occurs (s.lists dl_wait) what place e,
          )))

  module _ (s : Downloads) (what : ℕ) (h : IsOwned s) (o : s.owner what ≡ dl_stop) where
    -- The download leaves the list, and no other comes to it.
    count-continue_stopped : count (continue_stopped w s what) dl_stop < count s dl_stop
    unfolding continue_stopped move
    count-continue_stopped =
        let gone = count-del s what h o in
        let waits = count-insert_into_wait_list (del s what) what (del-IsOwned s what h) in
        if_intro (λ t. count t dl_stop < count s dl_stop)
          (w.allow_force_run
            && not (s.owner what == dl_pause)
            && nonzero (try_to_run_download w s what))
          {x = move s what dl_run}
          {y = try_to_run_wait w (insert_into_wait_list w (del s what) what)}
          (λ _. omega (arith, gone, count-add (del s what) what))
          (λ _. omega (
            arith,
            gone,
            waits,
            try_to_run_wait-others w (insert_into_wait_list w (del s what) what) dl_stop
                (λ e. absurd (omega (e, arith))) (λ e. absurd (omega (e, arith))),
          ))

    continue-stopped :
        w.offline_mode ≡ false → continue_download w s what ≡ continue_stopped w s what
    unfolding continue_download
    continue-stopped f = rw (f, o) refl

  rerun_failed_loop :
      (fuel : ℕ) (s : Downloads) (xs : List ℕ)
      → w.offline_mode ≡ false
      → IsOwned s
      → s.lists dl_stop ≡ xs
      → count s dl_stop ≤ fuel
      → (rerun_failed w fuel s).lists dl_stop ≡ []
  unfolding count
  rerun_failed_loop fuel s [] f h e l = ap (λ t. t.lists dl_stop) (rerun_none w s fuel e) ∙ e
  rerun_failed_loop zero s (temp ∷ rest) f h e l = absurd (omega (arith, l, ap length e))
  rerun_failed_loop (suc fuel) s (temp ∷ rest) f h e l =
      let t : Downloads = continue_download w s temp in
      let o = first_owner s temp dl_stop rest h (omega arith) e in
      let fewer = count-continue_stopped s temp h o in
      let same : count t dl_stop ≡ count (continue_stopped w s temp) dl_stop =
        ap (λ u. count u dl_stop) (continue-stopped s temp h o f) in
      ap (λ u. u.lists dl_stop) (rerun_next w s fuel temp rest e)
      ∙ rerun_failed_loop fuel t (t.lists dl_stop) f (continue_download-IsOwned w s temp h) refl
          (omega (arith, fewer, same, l))

  -- Where each download is in the one list that it takes itself to be in, and out of the offline mode,
  -- the loop of rerun_failed ends after at most as many rounds as downloads had failed, with none in
  -- the list of the failed ones.
  pub rerun_failed-ends :
      (s : Downloads) (fuel : ℕ)
      → w.offline_mode ≡ false
      → IsOwned s
      → count s dl_stop ≤ fuel
      → (rerun_failed w fuel s).lists dl_stop ≡ []
  rerun_failed-ends s fuel f h l = rerun_failed_loop fuel s (s.lists dl_stop) f h refl l
