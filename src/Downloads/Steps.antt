-- ===== src/Downloads/Steps.antt =====
-- Every operation of tMain keeps each download in the one list that it takes itself to be in.
use d4x.Prelude.{
  ℕ, Bool, true, false, Option, none, some, List, [], ◌∷◌, if◌then◌else◌, ◌≡◌, arith, if_intro,
}
use d4x.Downloads.{Downloads, del, ltb, count, dl_run, dl_wait, dl_limit, without}
use d4x.Downloads.Rules.{match_and_check, limit_check, limit_to_run, stop_matched, lower}
use d4x.Downloads.Moves.{
  wait_step, breaks, World, broken, refused, started, move, set_action, try_to_run_download,
  run_wait_loop, try_to_run_wait, run_run_loop, stop_moved, stop_download, absolute_delete_download,
  delete_stopped, delete_download, insert_at_row, first_row, insert_into_wait_list,
  continue_stopped, continue_running, continue_download,
}
use d4x.Downloads.Owned.{IsOwned, add-IsOwned, del-IsOwned, insert_before-IsOwned, owner-del}

pub move-IsOwned : (s : Downloads) (what key : ℕ) → IsOwned s → IsOwned (move s what key)
unfolding move
move-IsOwned s what key h =
    add-IsOwned (del s what) what (del-IsOwned s what h) key (owner-del s what)

pub set_action-IsOwned : (s : Downloads) (what a : ℕ) → IsOwned s → IsOwned (set_action s what a)
unfolding set_action IsOwned
set_action-IsOwned s what a h = h

pub known-IsOwned :
    (s : Downloads) (known : List ℕ) → IsOwned s → IsOwned (record s { known = known })
unfolding IsOwned
known-IsOwned s known h = h

match_and_check-IsOwned :
    (w : World) (s : Downloads) (what : ℕ) (stays : Bool)
    → IsOwned s
    → IsOwned (match_and_check w s what stays)
unfolding match_and_check IsOwned
match_and_check-IsOwned w s what false h d o p =
    ground (arith, h d o p, move-IsOwned s what dl_limit h d o p)
match_and_check-IsOwned w s what true h d o p = ground (arith, h d o p)

limit_to_run-IsOwned : (s : Downloads) (what : ℕ) → IsOwned s → IsOwned (limit_to_run s what)
unfolding limit_to_run IsOwned
limit_to_run-IsOwned s what h d o p = ground (arith, h d o p)

pub stop_matched-IsOwned : (s : Downloads) (what : ℕ) → IsOwned s → IsOwned (stop_matched s what)
unfolding stop_matched IsOwned
stop_matched-IsOwned s what h d o p = ground (arith, h d o p)

pub lower-IsOwned : (s : Downloads) (what : ℕ) → IsOwned s → IsOwned (lower s what)
unfolding lower IsOwned
lower-IsOwned s what h d o p = ground (arith, h d o p)

pub if_both : (b : Bool) (s t : Downloads) → IsOwned s → IsOwned t → IsOwned (if b then s else t)
if_both true s t h k = h
if_both false s t h k = k

module _ (w : World) where
  wait_step-IsOwned : (s : Downloads) (temp : ℕ) → IsOwned s → IsOwned (wait_step w s temp)
  unfolding wait_step
  wait_step-IsOwned s temp h =
      let matched = match_and_check-IsOwned w s temp false h in
      let m : Downloads = match_and_check w s temp false in
      let counted = limit_to_run-IsOwned m temp matched in
      let t : Downloads = limit_to_run m temp in
      if_intro IsOwned (limit_check w m temp) (λ _. matched)
        (λ _.
          elim (try_to_run_download w t temp)
            as (λ r. IsOwned (elim r [ broken ↦ t | refused ↦ t | started ↦ move t temp dl_run ])) [
              | broken ↦ counted
              | refused ↦ counted
              | started ↦ move-IsOwned t temp dl_run counted
            ])

  run_wait_loop-IsOwned : (xs : List ℕ) (s : Downloads) → IsOwned s → IsOwned (run_wait_loop w xs s)
  unfolding run_wait_loop
  run_wait_loop-IsOwned [] s h = h
  run_wait_loop-IsOwned (temp ∷ rest) s h =
      let step = wait_step-IsOwned s temp h in
      let more = run_wait_loop-IsOwned rest (wait_step w s temp) step in
      if_intro IsOwned (ltb (count s dl_run) w.max_active)
        (λ _. if_intro IsOwned (breaks w s temp) (λ _. step) (λ _. more)) (λ _. h)

  pub try_to_run_wait-IsOwned : (s : Downloads) → IsOwned s → IsOwned (try_to_run_wait w s)
  unfolding try_to_run_wait
  try_to_run_wait-IsOwned s h =
      if_intro IsOwned s.dont_try_to_run (λ _. h) (λ _. run_wait_loop-IsOwned (s.lists dl_wait) s h)

  pub run_run_loop-IsOwned :
      (xs : List ℕ) (s : Downloads) → IsOwned s → IsOwned (run_run_loop w xs s)
  unfolding run_run_loop
  run_run_loop-IsOwned [] s h = h
  run_run_loop-IsOwned (temp ∷ rest) s h =
      let counted : Downloads = limit_to_run (match_and_check w s temp true) temp in
      let counts : IsOwned counted =
        limit_to_run-IsOwned (match_and_check w s temp true) temp
          (match_and_check-IsOwned w s temp true h) in
      run_run_loop-IsOwned rest _
        (elim (try_to_run_download w s temp)
          as (λ r.
            IsOwned
              (elim r [ broken ↦ move s temp dl_wait | refused ↦ counted | started ↦ counted ])) [
                | broken ↦ move-IsOwned s temp dl_wait h
                | refused ↦ counts
                | started ↦ counts
              ])

  pub stop_download-IsOwned :
      (s : Downloads) (what : ℕ) → IsOwned s → IsOwned (stop_download w s what)
  unfolding stop_download stop_moved
  stop_download-IsOwned s what h =
      search
        (if_both, set_action-IsOwned, move-IsOwned, stop_matched-IsOwned, try_to_run_wait-IsOwned)
        depth 10

  pub absolute_delete_download-IsOwned :
      (s : Downloads) (what : ℕ) → IsOwned s → IsOwned (absolute_delete_download w s what)
  unfolding absolute_delete_download
  absolute_delete_download-IsOwned s what h =
      let t : Downloads = del s what in
      stop_matched-IsOwned (record t { known = without what t.known }) what
        (known-IsOwned t (without what t.known) (del-IsOwned s what h))

  delete_stopped-IsOwned :
      (s : Downloads) (what : ℕ) (flag : Bool) → IsOwned s → IsOwned (delete_stopped w s what flag)
  unfolding delete_stopped
  delete_stopped-IsOwned s what flag h =
      search (if_both, set_action-IsOwned, move-IsOwned, absolute_delete_download-IsOwned)

  pub delete_download-IsOwned :
      (s : Downloads) (what : ℕ) (flag : Bool) → IsOwned s → IsOwned (delete_download w s what flag)
  unfolding delete_download
  delete_download-IsOwned s what flag h =
      search (if_both, delete_stopped-IsOwned, stop_download-IsOwned)

  insert_at_row-IsOwned :
      (s : Downloads) (what : ℕ) (place : Option ℕ)
      → s.owner what ≡ 0
      → IsOwned s
      → IsOwned (insert_at_row w s what place)
  unfolding insert_at_row
  insert_at_row-IsOwned s what none e h = h
  insert_at_row-IsOwned s what (some place) e h = insert_before-IsOwned s what h place e

  pub insert_into_wait_list-IsOwned :
      (s : Downloads) (what : ℕ)
      → s.owner what ≡ 0
      → IsOwned s
      → IsOwned (insert_into_wait_list w s what)
  unfolding insert_into_wait_list
  insert_into_wait_list-IsOwned s what e h =
      if_intro IsOwned _ (λ _. add-IsOwned s what h dl_wait e)
        (λ _. insert_at_row-IsOwned s what (first_row w (s.lists dl_wait) what) e h)

  continue_stopped-IsOwned :
      (s : Downloads) (what : ℕ) → IsOwned s → IsOwned (continue_stopped w s what)
  unfolding continue_stopped
  continue_stopped-IsOwned s what h =
      if_intro IsOwned _ (λ _. move-IsOwned s what dl_run h)
        (λ _. try_to_run_wait-IsOwned (insert_into_wait_list w (del s what) what) (
          insert_into_wait_list-IsOwned (del s what) what (owner-del s what)
            (del-IsOwned s what h)))

  pub continue_download-IsOwned :
      (s : Downloads) (what : ℕ) → IsOwned s → IsOwned (continue_download w s what)
  unfolding continue_download continue_running
  continue_download-IsOwned s what h =
      let stopped = stop_download-IsOwned s what h in
      search (if_both, set_action-IsOwned, continue_stopped-IsOwned)
