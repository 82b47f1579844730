-- ===== src/Downloads/Moves.antt =====
-- main/main.cc: how tMain moves downloads between the lists of their queue. Threads and the
-- rows of the window are known by what they answer, the record World. A download that is split into
-- parts, one that is redirected and one with alternates are not modelled.
use d4x.Prelude.{
  ℕ, Bool, true, false, ◌&&◌, ◌||◌, not, Option, none, some, List, [], ◌∷◌, ◌==◌, ltb,
  if◌then◌else◌,
}
pub use d4x.Downloads.Rules.{World}
unfoldable pub use d4x.Downloads.Rules.{move, set_action}
use d4x.Downloads.Rules.{match_and_check, limit_check, limit_to_run, stop_matched}
use d4x.Downloads.{
  Downloads, add, del, insert_before, count, is_first, without, dl_run, dl_wait, dl_pause,
  dl_stopwait, dl_sizequery, dl_limit, action_delete, action_continue, action_stop,
  action_real_delete,
}

-- The results -1, 0 and 1 of try_to_run_download.
pub data Run : Type 0 where
  broken refused started : Run

-- Is the result not 0?
unfoldable pub nonzero : Run → Bool
nonzero broken = true
nonzero refused = false
nonzero started = true

module _ (w : World) where
  -- tMain::try_to_run_download
  unfoldable pub try_to_run_download : Downloads → ℕ → Run
  unfolding count
  try_to_run_download s what =
      if ltb (count s dl_run) 50 then (if w.starts what then started else broken) else refused

  -- The body of the loop of tMain::try_to_run_wait.
  unfoldable pub wait_step : Downloads → ℕ → Downloads
  unfolding match_and_check limit_check limit_to_run try_to_run_download move
  wait_step s temp =
      let matched = match_and_check w s temp false in
      let counted = limit_to_run matched temp in
      if limit_check w matched temp then matched else elim (try_to_run_download counted temp) [
        | broken ↦ counted
        | refused ↦ counted
        | started ↦ move counted temp dl_run
      ]

  unfoldable pub is_broken : Run → Bool
  is_broken broken = true
  is_broken refused = false
  is_broken started = false

  -- Does the loop end with its `break`?
  unfoldable pub breaks : Downloads → ℕ → Bool
  unfolding match_and_check limit_check limit_to_run try_to_run_download is_broken
  breaks s temp =
      let matched = match_and_check w s temp false in
      not (limit_check w matched temp)
      && is_broken (try_to_run_download (limit_to_run matched temp) temp)

  -- The loop of tMain::try_to_run_wait over the downloads that are left of the list.
  unfoldable pub run_wait_loop : List ℕ → Downloads → Downloads
  unfolding wait_step breaks count
  run_wait_loop [] s = s
  run_wait_loop (temp ∷ rest) s =
      let more = run_wait_loop rest (wait_step s temp) in
      if ltb (count s dl_run) w.max_active
      then (if breaks s temp then wait_step s temp else more)
      else s

  -- tMain::try_to_run_wait
  unfoldable pub try_to_run_wait : Downloads → Downloads
  unfolding run_wait_loop
  try_to_run_wait s = if s.dont_try_to_run then s else run_wait_loop (s.lists dl_wait) s

  -- The loop of tMain::try_to_run_run.
  unfoldable pub run_run_loop : List ℕ → Downloads → Downloads
  unfolding try_to_run_download move match_and_check limit_to_run
  run_run_loop [] s = s
  run_run_loop (temp ∷ rest) s =
      let counted = limit_to_run (match_and_check w s temp true) temp in
      run_run_loop rest (elim (try_to_run_download s temp) [
        | broken ↦ move s temp dl_wait
        | refused ↦ counted
        | started ↦ counted
      ])

  -- tMain::try_to_run_run
  unfoldable pub try_to_run_run : Downloads → Downloads
  unfolding run_run_loop
  try_to_run_run s = run_run_loop (s.lists dl_run) s

  -- The branches of tMain::stop_download behind those of a download whose size is asked for.
  unfoldable pub stop_moved : Downloads → ℕ → Downloads
  unfolding move stop_matched try_to_run_wait
  stop_moved s what =
      let owner = s.owner what in
      if owner == dl_run
      then move s what dl_stopwait
      else if (owner == dl_wait) || (owner == dl_limit) || (owner == dl_sizequery)
      then try_to_run_wait (move (stop_matched s what) what dl_pause)
      else s

  -- tMain::stop_download
  unfoldable pub stop_download : Downloads → ℕ → Downloads
  unfolding stop_moved is_first set_action
  stop_download s what =
      if (s.owner what == dl_stopwait) && not (s.action what == action_delete)
      then set_action s what action_stop
      else if is_first s dl_sizequery what
      then s
      else stop_moved s what

  -- tMain::absolute_delete_download
  unfoldable pub absolute_delete_download : Downloads → ℕ → Downloads
  unfolding del without stop_matched
  absolute_delete_download s what =
      let s' = del s what in stop_matched (record s' { known = without what s'.known }) what

  -- tMain::delete_download behind the stop of a download that runs.
  unfoldable pub delete_stopped : Downloads → ℕ → Bool → Downloads
  unfolding is_first move set_action absolute_delete_download
  delete_stopped s what flag =
      if is_first s dl_sizequery what
      then set_action (move s what dl_stopwait) what action_delete
      else if s.owner what == dl_stopwait
      then set_action s what (if flag then action_real_delete else action_delete)
      else absolute_delete_download s what

  -- tMain::delete_download
  unfoldable pub delete_download : Downloads → ℕ → Bool → Downloads
  unfolding delete_stopped stop_download
  delete_download s what flag =
      if w.is_protected what
      then s
      else delete_stopped (if s.owner what == dl_run then stop_download s what else s) what flag

  -- The first download of the list whose row is not above that of `what`.
  unfoldable pub first_row : List ℕ → ℕ → Option ℕ
  first_row [] what = none
  first_row (temp ∷ rest) what =
      let more = first_row rest what in if ltb (w.row temp) (w.row what) then more else some temp

  -- Is the row of the last download above that of `what`, or is there none?
  unfoldable pub goes_last : List ℕ → ℕ → Bool
  goes_last [] what = true
  goes_last (temp ∷ []) what = ltb (w.row temp) (w.row what)
  goes_last (temp ∷ next ∷ rest) what = goes_last (next ∷ rest) what

  unfoldable pub insert_at_row : Downloads → ℕ → Option ℕ → Downloads
  unfolding insert_before
  insert_at_row s what none = s
  insert_at_row s what (some place) = insert_before s what place

  -- tMain::insert_into_wait_list
  unfoldable pub insert_into_wait_list : Downloads → ℕ → Downloads
  unfolding add goes_last first_row insert_at_row
  insert_into_wait_list s what =
      if w.without_face || goes_last (s.lists dl_wait) what
      then add s what dl_wait
      else insert_at_row s what (first_row (s.lists dl_wait) what)

  -- The `default` case of tMain::continue_download.
  unfoldable pub continue_stopped : Downloads → ℕ → Downloads
  unfolding try_to_run_download nonzero move del insert_into_wait_list try_to_run_wait
  continue_stopped s what =
      if w.allow_force_run && not (s.owner what == dl_pause) && nonzero (try_to_run_download s what)
      then move s what dl_run
      else try_to_run_wait (insert_into_wait_list (del s what) what)

  -- The case DL_RUN of tMain::continue_download.
  unfoldable pub continue_running : Downloads → ℕ → Downloads
  unfolding continue_stopped set_action
  continue_running s what =
      if s.owner what == dl_stopwait
      then set_action s what action_continue
      else continue_stopped s what

  -- tMain::continue_download
  unfoldable pub continue_download : Downloads → ℕ → Downloads
  unfolding continue_stopped continue_running stop_download set_action
  continue_download s what =
      if w.offline_mode || (s.owner what == dl_sizequery)
      then s
      else if s.owner what == dl_stopwait
      then (if (s.action what == action_delete) || (s.action what == action_real_delete)
          then s
          else set_action s what action_continue)
      else if s.owner what == dl_run
      then continue_running (stop_download s what) what
      else continue_stopped s what
