-- ===== src/Downloads/Events.antt =====
-- main/main.cc: new downloads, threads that have ended, and the commands on whole lists.
use d4x.Prelude.{
  ℕ, Bool, true, false, ◌&&◌, ◌||◌, not, Option, none, some, List, [], ◌∷◌, ◌==◌, if◌then◌else◌,
}
use d4x.Downloads.Rules.{limit_check, stop_matched, lower}
use d4x.Downloads.{
  update, Downloads, add, del, insert_before, dl_run, dl_stop, dl_wait, dl_pause, dl_complete,
  dl_stopwait, dl_sizequery, action_none, action_delete, action_continue, action_stop,
  action_failed, action_real_delete, action_sizequery,
}
use d4x.Downloads.Moves.{
  World, move, set_action, try_to_run_wait, absolute_delete_download, delete_download,
  insert_into_wait_list, continue_download,
}

-- The first download of a list.
unfoldable pub head : List ℕ → Option ℕ
head [] = none
head (a ∷ rest) = some a

-- How a thread has ended: `status` of the download.
pub data Status : Type 0 where
  real_stop complete fatal : Status

module _ (w : World) where
  -- The download whose link was the first of `limited` waits again. The code disposes of that link,
  -- which no download has any more, behind try_to_run_wait.
  unfoldable pub release : Downloads → ℕ → List ℕ → Downloads
  unfolding insert_into_wait_list del try_to_run_wait
  release s r [] = s
  release s r (first ∷ rest) =
      let freed = record s { rule = update s.rule first 0; limited = update s.limited r rest } in
      let waits = insert_into_wait_list w (del freed first) first in
      if w.do_not_run then waits else try_to_run_wait w waits

  -- tFacePass::limit_dec, which is what tMain::prepare_for_stoping does to the lists.
  unfoldable pub limit_dec : Downloads → ℕ → Downloads
  unfolding lower limit_check release
  limit_dec s what =
      let t = lower s what in
      if (s.rule what == 0) || limit_check w t what
      then t
      else release t (t.rule what) (t.limited (t.rule what))

  -- tMain::move_to_sizequery
  unfoldable pub move_to_sizequery : Downloads → ℕ → Downloads
  unfolding set_action move
  move_to_sizequery s what =
      let owner = s.owner what in
      if w.offline_mode
      then s
      else if owner == dl_stopwait
      then set_action s what action_sizequery
      else if (owner == dl_sizequery) || (owner == dl_run)
      then s
      else move (set_action s what owner) what dl_sizequery

  -- ALL_DOWNLOADS::find
  unfoldable pub find_known : List ℕ → ℕ → Option ℕ
  find_known [] what = none
  find_known (a ∷ rest) what =
      let more = find_known rest what in if w.url a == w.url what then some a else more

  -- A new download in front of the first that waits, or behind the last.
  unfoldable pub put_waiting : Bool → Option ℕ → Downloads → ℕ → Downloads
  unfolding add insert_before
  put_waiting to_top none s what = add s what dl_wait
  put_waiting to_top (some first) s what =
      if to_top then insert_before s what first else add s what dl_wait

  -- tMain::add_downloading, of a download that ALL_DOWNLOADS does not hold.
  unfoldable pub add_new : Downloads → ℕ → Bool → Downloads
  unfolding head put_waiting try_to_run_wait
  add_new s what to_top =
      if w.scheduled what
      then s
      else try_to_run_wait w
          (put_waiting to_top (head (s.lists dl_wait)) (record s { known = what ∷ s.known }) what)

  -- `if (TO_WAIT_IF_HERE && tdwn && tdwn->owner ()!=DL_RUN)`
  unfoldable pub add_old : Downloads → ℕ → Downloads
  unfolding continue_download
  add_old s tdwn =
      if w.to_wait_if_here && not (s.owner tdwn == dl_run) then continue_download w s tdwn else s

  unfoldable pub add_found : Downloads → ℕ → Bool → Option ℕ → Downloads
  unfolding add_new add_old
  add_found s what to_top (some tdwn) = add_old s tdwn
  add_found s what to_top none = if w.is_valid what then add_new s what to_top else s

  -- tMain::add_downloading
  unfoldable pub add_downloading : Downloads → ℕ → Bool → Downloads
  unfolding add_found find_known
  add_downloading s what to_top = add_found s what to_top (find_known s.known what)

  -- The loop of tMain::del_all_from_list.
  unfoldable pub del_all_loop : List ℕ → Downloads → Downloads
  unfolding absolute_delete_download
  del_all_loop [] s = s
  del_all_loop (temp ∷ rest) s =
      del_all_loop rest (if w.is_protected temp then s else absolute_delete_download w s temp)

  -- tMain::del_all_from_list
  unfoldable pub del_all_from_list : Downloads → ℕ → Downloads
  unfolding del_all_loop
  del_all_from_list s key = del_all_loop (s.lists key) s

  -- The `switch` of tMain::main_circle_first on the action of a download that is paused now.
  unfoldable pub after_stop : Downloads → ℕ → ℕ → Downloads
  unfolding delete_download continue_download set_action move move_to_sizequery
  after_stop s what action =
      if action == action_real_delete
      then delete_download w s what true
      else if action == action_delete
      then delete_download w s what false
      else if action == action_continue
      then set_action (continue_download w s what) what action_none
      else if action == action_stop
      then set_action s what action_none
      else if action == action_failed
      then move (set_action s what action_none) what dl_stop
      else if action == action_sizequery
      then move_to_sizequery s what
      else s

  -- tMain::main_circle_first: the thread of a download in the list DL_STOPWAIT has ended.
  unfoldable pub main_circle_first : Downloads → ℕ → Downloads
  unfolding after_stop move limit_dec stop_matched
  main_circle_first s what =
      let t = stop_matched (limit_dec s what) what in
      after_stop (move t what dl_pause) what (t.action what)

  -- tMain::case_download_completed
  unfoldable pub case_download_completed : Downloads → ℕ → Downloads
  unfolding move absolute_delete_download stop_matched
  case_download_completed s what =
      if w.autodel_completed && not (w.is_protected what)
      then absolute_delete_download w (stop_matched (move s what dl_complete) what) what
      else stop_matched (move s what dl_complete) what

  -- tMain::case_download_failed
  unfoldable pub case_download_failed : Downloads → ℕ → Downloads
  unfolding move absolute_delete_download
  case_download_failed s what =
      if w.autodel_failed && not (w.is_protected what)
      then absolute_delete_download w (move s what dl_stop) what
      else move s what dl_stop

  -- tMain::main_circle_second: the thread of a download in the list DL_RUN has ended.
  unfoldable pub main_circle_second : Downloads → ℕ → Status → Downloads
  unfolding case_download_completed case_download_failed stop_matched try_to_run_wait
  main_circle_second s what real_stop = s
  main_circle_second s what complete = try_to_run_wait w (case_download_completed s what)
  main_circle_second s what fatal =
      try_to_run_wait w (stop_matched (case_download_failed s what) what)

  -- The case DL_SIZEQUERY of tMain::main_circle_nano2: the size of a download is known.
  unfoldable pub sizequery_done : Downloads → ℕ → Downloads
  unfolding del add insert_into_wait_list limit_dec
  sizequery_done s what =
      let t = limit_dec s what in
      if (t.action what == dl_wait) || (t.action what == dl_sizequery)
      then insert_into_wait_list w (del t what) what
      else add (del t what) what (t.action what)

  unfoldable pub is_complete : Status → Bool
  is_complete real_stop = false
  is_complete complete = true
  is_complete fatal = false

  -- The `switch` of tMain::main_circle_nano2 on the list of a download whose thread has ended.
  unfoldable pub ended_thread : Downloads → ℕ → Status → Downloads
  unfolding main_circle_second main_circle_first sizequery_done limit_dec is_complete
  ended_thread s what status =
      let owner = s.owner what in
      if owner == dl_run
      then (if w.overlapped what && is_complete status
          then s
          else main_circle_second (limit_dec s what) what status)
      else if owner == dl_stopwait
      then main_circle_first s what
      else if owner == dl_sizequery
      then sizequery_done s what
      else s
