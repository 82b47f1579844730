-- ===== src/Downloads/Commands.antt =====
-- The commands on the whole of a queue keep each download in the one list that it takes itself to be in.
use d4x.Prelude.{ℕ, zero, suc, Bool, none, some, List, [], ◌∷◌, ◌≡◌, refl, arith, if_intro}
use d4x.Downloads.{
  Downloads, dl_run, dl_stop, dl_wait, dl_pause, dl_complete, dl_stopwait, dl_sizequery, dl_limit,
  action_continue, action_delete,
}
use d4x.Downloads.Moves.{World, set_action, stop_download, continue_download}
use d4x.Downloads.Events.{head, del_all_loop, del_all_from_list}
use d4x.Downloads.Lists.{
  swap_forward, swap_backward, forward, backward, stop_running, stop_offline, stop_all_offline,
  mark_deleted, del_all, rerun_failed, put_back,
}
use d4x.Downloads.Owned.{IsOwned, occurs}
use d4x.Downloads.Steps.{
  if_both, move-IsOwned, set_action-IsOwned, stop_download-IsOwned,
  absolute_delete_download-IsOwned, continue_download-IsOwned,
}

occurs-swap_forward : (d what : ℕ) (xs : List ℕ) → occurs d (swap_forward what xs) ≡ occurs d xs
unfolding swap_forward
occurs-swap_forward d what [] = refl
occurs-swap_forward d what (a ∷ []) = refl
occurs-swap_forward d what (a ∷ b ∷ rest) = ground (arith, occurs-swap_forward d what (b ∷ rest))

occurs-swap_backward : (d what : ℕ) (xs : List ℕ) → occurs d (swap_backward what xs) ≡ occurs d xs
unfolding swap_backward
occurs-swap_backward d what [] = refl
occurs-swap_backward d what (a ∷ []) = refl
occurs-swap_backward d what (a ∷ b ∷ rest) = ground (arith, occurs-swap_backward d what (b ∷ rest))

pub forward-IsOwned : (s : Downloads) (what : ℕ) → IsOwned s → IsOwned (forward s what)
unfolding IsOwned forward
forward-IsOwned s what h d o p = ground (arith, h d o p, occurs-swap_forward d what (s.lists o))

pub backward-IsOwned : (s : Downloads) (what : ℕ) → IsOwned s → IsOwned (backward s what)
unfolding IsOwned backward
backward-IsOwned s what h d o p = ground (arith, h d o p, occurs-swap_backward d what (s.lists o))

pub dont_try-IsOwned :
    (s : Downloads) (b : Bool) → IsOwned s → IsOwned (record s { dont_try_to_run = b })
unfolding IsOwned
dont_try-IsOwned s b h = h

module _ (w : World) where
  -- A round of a loop that takes the first download of a list, if there is one.
  first-IsOwned :
      (xs : List ℕ) (s : Downloads) (go : ℕ → Downloads)
      → IsOwned s
      → ((d : ℕ) → IsOwned (go d))
      → IsOwned (elim (head xs) [ none ↦ s | some d ↦ go d ])
  unfolding head
  first-IsOwned [] s go h k = h
  first-IsOwned (d ∷ xs) s go h k = k d

  pub stop_running-IsOwned :
      (fuel : ℕ) (s : Downloads) → IsOwned s → IsOwned (stop_running w fuel s)
  unfolding stop_running
  stop_running-IsOwned zero s h = h
  stop_running-IsOwned (suc fuel) s h =
      first-IsOwned (s.lists dl_run) s (λ d. stop_running w fuel (stop_download w s d)) h
        (λ d. stop_running-IsOwned fuel (stop_download w s d) (stop_download-IsOwned w s d h))

  stop_offline-IsOwned : (fuel : ℕ) (s : Downloads) → IsOwned s → IsOwned (stop_offline w fuel s)
  unfolding stop_offline
  stop_offline-IsOwned zero s h = h
  stop_offline-IsOwned (suc fuel) s h =
      first-IsOwned (s.lists dl_run) s
        (λ d. stop_offline w fuel (set_action (stop_download w s d) d action_continue)) h
        (λ d. stop_offline-IsOwned fuel (set_action (stop_download w s d) d action_continue) (
          set_action-IsOwned (stop_download w s d) d action_continue
            (stop_download-IsOwned w s d h)))

  pub stop_all_offline-IsOwned :
      (fuel : ℕ) (s : Downloads) → IsOwned s → IsOwned (stop_all_offline w fuel s)
  unfolding stop_all_offline
  stop_all_offline-IsOwned fuel s h =
      let t : Downloads = stop_offline w fuel s in
      let stopped : IsOwned t = stop_offline-IsOwned fuel s h in
      first-IsOwned (t.lists dl_sizequery) t (λ d. stop_download w t d) stopped
        (λ d. stop_download-IsOwned w t d stopped)

  mark_deleted-IsOwned : (xs : List ℕ) (s : Downloads) → IsOwned s → IsOwned (mark_deleted w xs s)
  unfolding mark_deleted
  mark_deleted-IsOwned [] s h = h
  mark_deleted-IsOwned (temp ∷ rest) s h = mark_deleted-IsOwned rest _ (
      if_intro IsOwned (w.is_protected temp) (λ _. h)
        (λ _. set_action-IsOwned s temp action_delete h))

  del_all_loop-IsOwned : (xs : List ℕ) (s : Downloads) → IsOwned s → IsOwned (del_all_loop w xs s)
  unfolding del_all_loop
  del_all_loop-IsOwned [] s h = h
  del_all_loop-IsOwned (temp ∷ rest) s h = del_all_loop-IsOwned rest _ (
      if_intro IsOwned (w.is_protected temp) (λ _. h)
        (λ _. absolute_delete_download-IsOwned w s temp h))

  pub del_all_from_list-IsOwned :
      (s : Downloads) (key : ℕ) → IsOwned s → IsOwned (del_all_from_list w s key)
  unfolding del_all_from_list
  del_all_from_list-IsOwned s key h = del_all_loop-IsOwned (s.lists key) s h

  pub del_all-IsOwned : (fuel : ℕ) (s : Downloads) → IsOwned s → IsOwned (del_all w fuel s)
  unfolding del_all
  del_all-IsOwned fuel s h =
      let stopped = stop_running-IsOwned fuel s h in
      let marked = mark_deleted-IsOwned ((stop_running w fuel s).lists dl_stopwait) _ stopped in
      let no_paused = del_all_from_list-IsOwned _ dl_pause marked in
      let no_waiting = del_all_from_list-IsOwned _ dl_wait no_paused in
      let no_failed = del_all_from_list-IsOwned _ dl_stop no_waiting in
      del_all_from_list-IsOwned _ dl_limit (del_all_from_list-IsOwned _ dl_complete no_failed)

  pub rerun_failed-IsOwned :
      (fuel : ℕ) (s : Downloads) → IsOwned s → IsOwned (rerun_failed w fuel s)
  unfolding rerun_failed
  rerun_failed-IsOwned zero s h = h
  rerun_failed-IsOwned (suc fuel) s h =
      first-IsOwned (s.lists dl_stop) s (λ d. rerun_failed w fuel (continue_download w s d)) h
        (λ d.
          rerun_failed-IsOwned fuel (continue_download w s d) (continue_download-IsOwned w s d h))

  pub put_back-IsOwned :
      (s : Downloads) (what owner : ℕ) → IsOwned s → IsOwned (put_back w s what owner)
  unfolding put_back
  put_back-IsOwned s what owner h = search (if_both, move-IsOwned)
