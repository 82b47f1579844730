-- ===== src/Downloads/Lists.antt =====
-- main/main.cc: the commands on the whole of a queue, and downloads that are read from a file of saved
-- ones; and main/dlist.cc: the place of a download in its list. The loops of main.cc that take the
-- first download of a list until there is none run on fuel. Of the queues within a queue, which stop_all
-- and stop_all_offline go through in the same way, there are none here.
use d4x.Prelude.{
  ℕ, zero, suc, Bool, true, false, ◌&&◌, ◌||◌, not, Option, none, some, List, [], ◌∷◌, ◌==◌, leb,
  ltb, if◌then◌else◌,
}
use d4x.Downloads.{
  Downloads, update, dl_alone, dl_run, dl_stop, dl_wait, dl_pause, dl_complete, dl_stopwait,
  dl_sizequery, dl_limit, action_continue, action_delete,
}
use d4x.Downloads.Moves.{
  World, nonzero, move, set_action, try_to_run_download, try_to_run_wait, stop_download,
  continue_download,
}
use d4x.Downloads.Events.{head, find_known, add_downloading, del_all_from_list}

-- tDList::forward
unfoldable pub swap_forward : ℕ → List ℕ → List ℕ
swap_forward what [] = []
swap_forward what (a ∷ []) = a ∷ []
swap_forward what (a ∷ b ∷ rest) =
    let more = swap_forward what (b ∷ rest) in if b == what then b ∷ a ∷ rest else a ∷ more

-- tDList::backward
unfoldable pub swap_backward : ℕ → List ℕ → List ℕ
swap_backward what [] = []
swap_backward what (a ∷ []) = a ∷ []
swap_backward what (a ∷ b ∷ rest) =
    let more = swap_backward what (b ∷ rest) in if a == what then b ∷ a ∷ rest else a ∷ more

-- d4xDownloadQueue::forward
unfoldable pub forward : Downloads → ℕ → Downloads
unfolding swap_forward
forward s what =
    let o = s.owner what in
    if o == dl_alone
    then s
    else (record s { lists = update s.lists o (swap_forward what (s.lists o)) })

-- d4xDownloadQueue::backward
unfoldable pub backward : Downloads → ℕ → Downloads
unfolding swap_backward
backward s what =
    let o = s.owner what in
    if o == dl_alone
    then s
    else (record s { lists = update s.lists o (swap_backward what (s.lists o)) })

module _ (w : World) where
  -- The loop of tMain::stop_all and of tMain::del_all.
  unfoldable pub stop_running : ℕ → Downloads → Downloads
  unfolding head stop_download
  stop_running zero s = s
  stop_running (suc fuel) s = elim (head (s.lists dl_run)) [
    | none ↦ s
    | some d ↦ stop_running fuel (stop_download w s d)
  ]

  -- The first loop of tMain::stop_all_offline.
  unfoldable pub stop_offline : ℕ → Downloads → Downloads
  unfolding head stop_download set_action
  stop_offline zero s = s
  stop_offline (suc fuel) s = elim (head (s.lists dl_run)) [
    | none ↦ s
    | some d ↦ stop_offline fuel (set_action (stop_download w s d) d action_continue)
  ]

  -- tMain::stop_all_offline
  unfoldable pub stop_all_offline : ℕ → Downloads → Downloads
  unfolding head stop_download stop_offline
  stop_all_offline fuel s =
      let t = stop_offline fuel s in
      elim (head (t.lists dl_sizequery)) [ none ↦ t | some d ↦ stop_download w t d ]

  -- The second loop of tMain::del_all.
  unfoldable pub mark_deleted : List ℕ → Downloads → Downloads
  unfolding set_action
  mark_deleted [] s = s
  mark_deleted (temp ∷ rest) s =
      mark_deleted rest (if w.is_protected temp then s else set_action s temp action_delete)

  -- tMain::del_all
  unfoldable pub del_all : ℕ → Downloads → Downloads
  unfolding stop_running mark_deleted del_all_from_list
  del_all fuel s =
      let stopped = stop_running fuel s in
      let marked = mark_deleted (stopped.lists dl_stopwait) stopped in
      let no_paused = del_all_from_list w marked dl_pause in
      let no_waiting = del_all_from_list w no_paused dl_wait in
      let no_failed = del_all_from_list w no_waiting dl_stop in
      del_all_from_list w (del_all_from_list w no_failed dl_complete) dl_limit

  -- tMain::rerun_failed
  unfoldable pub rerun_failed : ℕ → Downloads → Downloads
  unfolding head continue_download
  rerun_failed zero s = s
  rerun_failed (suc fuel) s = elim (head (s.lists dl_stop)) [
    | none ↦ s
    | some temp ↦ rerun_failed fuel (continue_download w s temp)
  ]

  -- The `switch` of tMain::add_downloading_to: a download back in the list it was in when it was saved.
  unfoldable pub put_back : Downloads → ℕ → ℕ → Downloads
  unfolding nonzero try_to_run_download move
  put_back s what owner =
      if owner == dl_run
      then (if nonzero (try_to_run_download w s what) then move s what dl_run else s)
      else if (owner == dl_stopwait) || (owner == dl_stop)
      then move s what dl_stop
      else if owner == dl_complete
      then move s what dl_complete
      else if owner == dl_pause
      then move s what dl_pause
      else s

  unfoldable pub is_some : Option ℕ → Bool
  is_some none = false
  is_some (some x) = true

  -- tMain::add_downloading_to; `owner` is the list that the download was in when it was saved.
  unfoldable pub add_downloading_to : Downloads → ℕ → ℕ → Bool → Downloads
  unfolding add_downloading find_known put_back is_some try_to_run_wait
  add_downloading_to s what owner to_top =
      let added = add_downloading w (record s { dont_try_to_run = true }) what to_top in
      if w.scheduled what || not (ltb dl_alone owner && leb owner dl_limit)
      then s
      else if is_some (find_known w s.known what)
      then (record added { dont_try_to_run = false })
      else try_to_run_wait w (record (put_back added what owner) { dont_try_to_run = false })
