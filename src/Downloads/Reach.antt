-- ===== src/Downloads/Reach.antt =====
-- The events that change the lists of a queue, as steps, and what holds after all of them.
use d4x.Prelude.{ℕ, Bool, ◌≡◌}
use d4x.Downloads.{Downloads, dl_run}
use d4x.Downloads.Lists.{
  forward, backward, stop_running, stop_all_offline, del_all, rerun_failed, add_downloading_to,
}
use d4x.Downloads.Commands.{
  forward-IsOwned, backward-IsOwned, stop_running-IsOwned, stop_all_offline-IsOwned,
  del_all_from_list-IsOwned, del_all-IsOwned, rerun_failed-IsOwned,
}
use d4x.Downloads.Moves.{
  World, try_to_run_wait, try_to_run_run, stop_download, delete_download, continue_download,
}
use d4x.Downloads.Events.{
  Status, move_to_sizequery, find_known, add_downloading, del_all_from_list, ended_thread,
}
use d4x.Downloads.Owned.{IsOwned}
use d4x.Downloads.Steps.{
  try_to_run_wait-IsOwned, run_run_loop-IsOwned, stop_download-IsOwned, delete_download-IsOwned,
  continue_download-IsOwned,
}
use d4x.Downloads.Ends.{
  move_to_sizequery-IsOwned, add_found-IsOwned, add_downloading_to-IsOwned, ended_thread-IsOwned,
}

module _ (w : World) where
  -- What can happen next: a command of the user for a download, or for a list; a new download, which
  -- is in no list, or one from a file of saved ones; the end of a thread; a round of the main loop; a
  -- number of rounds of the loops over the whole of the queue.
  pub data Step (s : Downloads) : Downloads → Type 0 where
    stops : (what : ℕ) → Step s (stop_download w s what)
    continues : (what : ℕ) → Step s (continue_download w s what)
    deletes : (what : ℕ) (flag : Bool) → Step s (delete_download w s what flag)
    asks_size : (what : ℕ) → Step s (move_to_sizequery w s what)
    adds : (what : ℕ) (to_top : Bool) → s.owner what ≡ 0 → Step s (add_downloading w s what to_top)
    deletes_list : (key : ℕ) → Step s (del_all_from_list w s key)
    ends : (what : ℕ) (status : Status) → Step s (ended_thread w s what status)
    runs_waiting : Step s (try_to_run_wait w s)
    runs_again : Step s (try_to_run_run w s)
    restores :
        (what owner : ℕ) (to_top : Bool)
        → s.owner what ≡ 0
        → Step s (add_downloading_to w s what owner to_top)
    stops_all : (rounds : ℕ) → Step s (stop_running w rounds s)
    goes_offline : (rounds : ℕ) → Step s (stop_all_offline w rounds s)
    deletes_all : (rounds : ℕ) → Step s (del_all w rounds s)
    reruns_failed : (rounds : ℕ) → Step s (rerun_failed w rounds s)
    moves_forward : (what : ℕ) → Step s (forward s what)
    moves_backward : (what : ℕ) → Step s (backward s what)

  pub data Reach (s : Downloads) : Downloads → Type 0 where
    here : Reach s s
    next : {t u : Downloads} → Reach s t → Step t u → Reach s u

  -- A step leaves each download in the list that it takes itself to be in.
  Step-IsOwned : {s t : Downloads} → Step s t → IsOwned s → IsOwned t
  unfolding add_downloading try_to_run_run
  Step-IsOwned {s} (stops what) h = stop_download-IsOwned w s what h
  Step-IsOwned {s} (continues what) h = continue_download-IsOwned w s what h
  Step-IsOwned {s} (deletes what flag) h = delete_download-IsOwned w s what flag h
  Step-IsOwned {s} (asks_size what) h = move_to_sizequery-IsOwned w s what h
  Step-IsOwned {s} (adds what to_top e) h =
      add_found-IsOwned w s what to_top (find_known w s.known what) e h
  Step-IsOwned {s} (deletes_list key) h = del_all_from_list-IsOwned w s key h
  Step-IsOwned {s} (ends what status) h = ended_thread-IsOwned w s what status h
  Step-IsOwned {s} runs_waiting h = try_to_run_wait-IsOwned w s h
  Step-IsOwned {s} runs_again h = run_run_loop-IsOwned w (s.lists dl_run) s h
  Step-IsOwned {s} (restores what owner to_top e) h =
      add_downloading_to-IsOwned w s what owner to_top e h
  Step-IsOwned {s} (stops_all rounds) h = stop_running-IsOwned w rounds s h
  Step-IsOwned {s} (goes_offline rounds) h = stop_all_offline-IsOwned w rounds s h
  Step-IsOwned {s} (deletes_all rounds) h = del_all-IsOwned w rounds s h
  Step-IsOwned {s} (reruns_failed rounds) h = rerun_failed-IsOwned w rounds s h
  Step-IsOwned {s} (moves_forward what) h = forward-IsOwned s what h
  Step-IsOwned {s} (moves_backward what) h = backward-IsOwned s what h

  -- Whatever happens to a queue in which every list holds a download once if it is the list of that
  -- download and else not at all, in any order and as often as it may, this stays so.
  pub Reach-IsOwned : {s t : Downloads} → IsOwned s → Reach s t → IsOwned t
  Reach-IsOwned h here = h
  Reach-IsOwned h (next r step) = Step-IsOwned step (Reach-IsOwned h r)
