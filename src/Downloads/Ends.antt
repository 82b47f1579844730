-- ===== src/Downloads/Ends.antt =====
-- The ends of threads and the new downloads of main/main.cc keep each download in the one list that it
-- takes itself to be in.
use d4x.Prelude.{
  ℕ, Bool, true, false, ◌&&◌, ◌||◌, not, Option, none, some, List, [], ◌∷◌, ◌==◌, ltb, leb, ◌≡◌,
  if_intro,
}
use d4x.Downloads.{
  Downloads, update, del, dl_run, dl_wait, dl_pause, dl_stopwait, dl_sizequery, dl_complete,
  dl_stop, dl_alone, dl_limit,
}
use d4x.Downloads.Rules.{limit_check, stop_matched, lower}
use d4x.Downloads.Lists.{put_back, is_some, add_downloading_to}
use d4x.Downloads.Commands.{dont_try-IsOwned, put_back-IsOwned}
use d4x.Downloads.Moves.{World, move, insert_into_wait_list}
use d4x.Downloads.Events.{
  head, release, limit_dec, Status, real_stop, complete, fatal, move_to_sizequery, find_known,
  put_waiting, add_new, add_old, add_found, add_downloading, after_stop, main_circle_first,
  case_download_completed, case_download_failed, main_circle_second, sizequery_done, ended_thread,
}
use d4x.Downloads.Owned.{IsOwned, add-IsOwned, del-IsOwned, insert_before-IsOwned, owner-del}
use d4x.Downloads.Steps.{
  if_both, move-IsOwned, set_action-IsOwned, try_to_run_wait-IsOwned,
  absolute_delete_download-IsOwned, delete_download-IsOwned, stop_matched-IsOwned, lower-IsOwned,
  insert_into_wait_list-IsOwned, continue_download-IsOwned,
}

freed-IsOwned :
    (s : Downloads) (rule : ℕ → ℕ) (limited : ℕ → List ℕ)
    → IsOwned s
    → IsOwned (record s { rule = rule; limited = limited })
unfolding IsOwned
freed-IsOwned s rule limited h = h

module _ (w : World) where
  release-IsOwned :
      (s : Downloads) (r : ℕ) (links : List ℕ) → IsOwned s → IsOwned (release w s r links)
  unfolding release
  release-IsOwned s r [] h = h
  release-IsOwned s r (first ∷ rest) h =
      let freed : Downloads = record s {
        rule = update s.rule first 0;
        limited = update s.limited r rest;
      } in
      let free : IsOwned freed =
        freed-IsOwned s (update s.rule first 0) (update s.limited r rest) h in
      let waits =
        insert_into_wait_list-IsOwned w (del freed first) first (owner-del freed first)
          (del-IsOwned freed first free) in
      if_intro IsOwned w.do_not_run (λ _. waits)
        (λ _. try_to_run_wait-IsOwned w (insert_into_wait_list w (del freed first) first) waits)

  limit_dec-IsOwned : (s : Downloads) (what : ℕ) → IsOwned s → IsOwned (limit_dec w s what)
  unfolding limit_dec
  limit_dec-IsOwned s what h =
      let t : Downloads = lower s what in
      let lowers = lower-IsOwned s what h in
      if_intro IsOwned ((s.rule what == 0) || limit_check w t what) (λ _. lowers)
        (λ _. release-IsOwned t (t.rule what) (t.limited (t.rule what)) lowers)

  pub move_to_sizequery-IsOwned :
      (s : Downloads) (what : ℕ) → IsOwned s → IsOwned (move_to_sizequery w s what)
  unfolding move_to_sizequery
  move_to_sizequery-IsOwned s what h = search (if_both, set_action-IsOwned, move-IsOwned)

  put_waiting-IsOwned :
      (to_top : Bool) (first : Option ℕ) (s : Downloads) (what : ℕ)
      → s.owner what ≡ 0
      → IsOwned s
      → IsOwned (put_waiting w to_top first s what)
  unfolding put_waiting
  put_waiting-IsOwned to_top none s what e h = add-IsOwned s what h dl_wait e
  put_waiting-IsOwned true (some first) s what e h = insert_before-IsOwned s what h first e
  put_waiting-IsOwned false (some first) s what e h = add-IsOwned s what h dl_wait e

  pub add_found-IsOwned :
      (s : Downloads) (what : ℕ) (to_top : Bool) (found : Option ℕ)
      → s.owner what ≡ 0
      → IsOwned s
      → IsOwned (add_found w s what to_top found)
  unfolding add_found add_old add_new IsOwned
  add_found-IsOwned s what to_top (some tdwn) e h =
      if_intro IsOwned _ (λ _. continue_download-IsOwned w s tdwn h) (λ _. h)
  add_found-IsOwned s what to_top none e h =
      if_intro IsOwned (w.is_valid what)
        (λ _.
          if_intro IsOwned (w.scheduled what) (λ _. h)
            (λ _.
              let s' : Downloads = record s { known = what ∷ s.known } in
              try_to_run_wait-IsOwned w (put_waiting w to_top (head (s.lists dl_wait)) s' what)
                (put_waiting-IsOwned to_top (head (s.lists dl_wait)) s' what e h)))
        (λ _. h)

  pub add_downloading_to-IsOwned :
      (s : Downloads) (what owner : ℕ) (to_top : Bool)
      → s.owner what ≡ 0
      → IsOwned s
      → IsOwned (add_downloading_to w s what owner to_top)
  unfolding add_downloading_to add_downloading
  add_downloading_to-IsOwned s what owner to_top e h =
      let u : Downloads = record s { dont_try_to_run = true } in
      let added : Downloads = add_found w u what to_top (find_known w s.known what) in
      let adds =
        add_found-IsOwned u what to_top (find_known w s.known what) e (dont_try-IsOwned s true h) in
      let back =
        dont_try-IsOwned (put_back w added what owner) false
          (put_back-IsOwned w added what owner adds) in
      if_intro IsOwned (w.scheduled what || not (ltb dl_alone owner && leb owner dl_limit)) (λ _. h)
        (λ _.
          if_intro IsOwned (is_some w (find_known w s.known what))
            (λ _. dont_try-IsOwned added false adds)
            (λ _.
              try_to_run_wait-IsOwned w
                (record (put_back w added what owner) { dont_try_to_run = false }) back))

  after_stop-IsOwned :
      (s : Downloads) (what action : ℕ) → IsOwned s → IsOwned (after_stop w s what action)
  unfolding after_stop
  after_stop-IsOwned s what action h =
      search
        (
          if_both,
          delete_download-IsOwned w,
          continue_download-IsOwned w,
          set_action-IsOwned,
          move-IsOwned,
          move_to_sizequery-IsOwned,
        )
        depth 12

  completed-IsOwned :
      (s : Downloads) (what : ℕ) → IsOwned s → IsOwned (case_download_completed w s what)
  unfolding case_download_completed
  completed-IsOwned s what h =
      let stopped =
        stop_matched-IsOwned (move s what dl_complete) what (move-IsOwned s what dl_complete h) in
      if_intro IsOwned (w.autodel_completed && not (w.is_protected what))
        (λ _.
          absolute_delete_download-IsOwned w (stop_matched (move s what dl_complete) what) what
            stopped)
        (λ _. stopped)

  failed-IsOwned : (s : Downloads) (what : ℕ) → IsOwned s → IsOwned (case_download_failed w s what)
  unfolding case_download_failed
  failed-IsOwned s what h =
      let moved = move-IsOwned s what dl_stop h in
      if_intro IsOwned (w.autodel_failed && not (w.is_protected what))
        (λ _. absolute_delete_download-IsOwned w (move s what dl_stop) what moved) (λ _. moved)

  main_circle_second-IsOwned :
      (s : Downloads) (what : ℕ) (status : Status)
      → IsOwned s
      → IsOwned (main_circle_second w s what status)
  unfolding main_circle_second
  main_circle_second-IsOwned s what real_stop h = h
  main_circle_second-IsOwned s what complete h =
      try_to_run_wait-IsOwned w (case_download_completed w s what) (completed-IsOwned s what h)
  main_circle_second-IsOwned s what fatal h =
      try_to_run_wait-IsOwned w (stop_matched (case_download_failed w s what) what)
        (stop_matched-IsOwned (case_download_failed w s what) what (failed-IsOwned s what h))

  sizequery_done-IsOwned :
      (s : Downloads) (what : ℕ) → IsOwned s → IsOwned (sizequery_done w s what)
  unfolding sizequery_done
  sizequery_done-IsOwned s what h =
      let t : Downloads = limit_dec w s what in
      let taken = del-IsOwned t what (limit_dec-IsOwned s what h) in
      if_intro IsOwned _
        (λ _. insert_into_wait_list-IsOwned w (del t what) what (owner-del t what) taken)
        (λ _. add-IsOwned (del t what) what taken (t.action what) (owner-del t what))

  main_circle_first-IsOwned :
      (s : Downloads) (what : ℕ) → IsOwned s → IsOwned (main_circle_first w s what)
  unfolding main_circle_first
  main_circle_first-IsOwned s what h =
      let t : Downloads = stop_matched (limit_dec w s what) what in
      let stopped : IsOwned t =
        stop_matched-IsOwned (limit_dec w s what) what (limit_dec-IsOwned s what h) in
      after_stop-IsOwned (move t what dl_pause) what (t.action what)
        (move-IsOwned t what dl_pause stopped)

  pub ended_thread-IsOwned :
      (s : Downloads) (what : ℕ) (status : Status)
      → IsOwned s
      → IsOwned (ended_thread w s what status)
  unfolding ended_thread
  ended_thread-IsOwned s what status h =
      if_intro IsOwned (s.owner what == dl_run)
        (λ _.
          if_intro IsOwned _ (λ _. h)
            (λ _.
              main_circle_second-IsOwned (limit_dec w s what) what status
                (limit_dec-IsOwned s what h)))
        (λ _.
          if_intro IsOwned (s.owner what == dl_stopwait) (λ _. main_circle_first-IsOwned s what h)
            (λ _.
              if_intro IsOwned (s.owner what == dl_sizequery) (λ _. sizequery_done-IsOwned s what h)
                (λ _. h)))
