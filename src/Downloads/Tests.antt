-- ===== src/Downloads/Tests.antt =====
-- The theorems on downloads at a queue in which one download runs, three wait and one has failed.
use d4x.Prelude.{
  ◌+◌, ◌-◌, ◌≤◌, true, false, [], ◌∷◌, ◌++◌, max, ◌==◌, if◌then◌else◌, ◌≡◌, refl, arith, take, drop,
  ltb,
}
use d4x.Downloads.{Downloads, count, dl_run, dl_wait, dl_stop, dl_limit, dl_stopwait}
use d4x.Downloads.Moves.{World, try_to_run_wait, stop_download}
use d4x.Downloads.Events.{add_downloading, find_known, ended_thread, complete}
use d4x.Downloads.Owned.{IsOwned}
use d4x.Downloads.Reach.{here, next, stops, ends, reruns_failed, Reach-IsOwned}
use d4x.Downloads.Limit.{try_to_run_wait-limit}
use d4x.Downloads.Starts.{try_to_run_wait-starts}
use d4x.Downloads.Ruled.{IsLimited, try_to_run_wait-IsLimited, try_to_run_wait-keeps}
use d4x.Downloads.Lists.{stop_running, rerun_failed}
use d4x.Downloads.Whole.{stop_running_lem, rerun_failed-offline}
use d4x.Downloads.Rerun.{rerun_failed-ends}
use d4x.Downloads.Counter.{IsCounted, add_downloading-drifts}

abbrev world : World
world = record {
  url = λ d. d;
  is_valid = λ d. true;
  scheduled = λ d. false;
  is_protected = λ d. false;
  starts = λ d. ltb d 50;
  overlapped = λ d. false;
  find_match = λ d. if d == 80 then 7 else 0;
  con_limit = λ r. 1;
  row = λ d. d;
  max_active = 3;
  autodel_completed = false;
  autodel_failed = false;
  offline_mode = false;
  allow_force_run = true;
  without_face = true;
  to_wait_if_here = false;
  do_not_run = false;
}

-- Downloads 20, 30 and 40 wait, 10 runs, and 70, whose thread cannot be started, has failed.
abbrev start : Downloads
start = record {
  lists = λ o.
      if o == 1
      then 10 ∷ []
      else if o == 2
      then 70 ∷ []
      else if o == 3
      then 20 ∷ 30 ∷ 40 ∷ []
      else [];
  owner = λ d.
      if d == 10
      then 1
      else if d == 70
      then 2
      else if d == 20
      then 3
      else if d == 30
      then 3
      else if d == 40
      then 3
      else 0;
  action = λ d. 0;
  known = 10 ∷ 20 ∷ 30 ∷ 40 ∷ 70 ∷ [];
  increased = 4;
  decreased = 0;
  dont_try_to_run = false;
  rule = λ d. 0;
  held = λ d. false;
  limited = λ r. [];
  lim_run = λ r. [];
  raised = λ r. 0;
  lowered = λ r. 0;
}

start-IsOwned : IsOwned start
unfolding IsOwned
start-IsOwned d o h = ground arith

Reach-IsOwned_example :
    IsOwned (rerun_failed world 2 (ended_thread world (stop_download world start 20) 10 complete))
Reach-IsOwned_example =
    Reach-IsOwned world start-IsOwned
      (next (next (next here (stops 20)) (ends 10 complete)) (reruns_failed 2))

try_to_run_wait-limit_example :
    count (try_to_run_wait world start) dl_run ≤ max (count start dl_run) 3
try_to_run_wait-limit_example = try_to_run_wait-limit world start

try_to_run_wait-starts_example :
    ((try_to_run_wait world start).lists dl_run
      ≡ start.lists dl_run ++ take (3 - count start dl_run) (start.lists dl_wait))
    × ((try_to_run_wait world start).lists dl_wait
        ≡ drop (3 - count start dl_run) (start.lists dl_wait))
try_to_run_wait-starts_example =
    try_to_run_wait-starts world start start-IsOwned refl
      ((refl, refl, refl), ((refl, refl, refl), ((refl, refl, refl), tt))) (omega arith)

abbrev waiting : Downloads
waiting = record start { dont_try_to_run = true }

waiting-IsOwned : IsOwned waiting
unfolding IsOwned
waiting-IsOwned d o h = ground arith

add_downloading-drifts_example :
    (add_downloading world waiting 60 true).increased + 1
    ≡ (add_downloading world waiting 60 true).decreased
      + count (add_downloading world waiting 60 true) dl_run
      + count (add_downloading world waiting 60 true) dl_wait
unfolding IsCounted count find_known
add_downloading-drifts_example =
    add_downloading-drifts world waiting 60 20 (30 ∷ 40 ∷ []) waiting-IsOwned refl refl refl refl
      refl refl

-- Two of the three that wait are started.
started_two : (try_to_run_wait world start).lists dl_run ≡ 10 ∷ 20 ∷ 30 ∷ []
unfolding try_to_run_wait
started_two = refl

try_to_run_wait-IsLimited_example : IsLimited world (try_to_run_wait world start)
unfolding IsLimited
try_to_run_wait-IsLimited_example = try_to_run_wait-IsLimited world start (λ r. omega arith)

-- Download 80 matches rule 7, which lets one download run, but its thread cannot be started.
abbrev ruled : Downloads
ruled = record start {
  lists = λ o. if o == 3 then 80 ∷ [] else [];
  owner = λ d. if d == 80 then 3 else 0;
}

try_to_run_wait-keeps_example :
    ((try_to_run_wait world ruled).owner 80 ≡ dl_limit)
    × ((try_to_run_wait world ruled).held 80 ≡ false)
    × ((try_to_run_wait world ruled).limited 7 ≡ [])
    × ((try_to_run_wait world ruled).lim_run 7 ≡ 80 ∷ [])
    × ((try_to_run_wait world ruled).raised 7 ≡ 1)
unfolding count
try_to_run_wait-keeps_example =
    try_to_run_wait-keeps world ruled 80 [] refl (λ e. absurd (omega (e, arith))) (omega arith) refl
      (omega arith) refl (omega arith) (omega arith) refl refl

stop_running_lem_example :
    ((stop_running world 1 start).lists dl_run ≡ [])
    × ((stop_running world 1 start).lists dl_stopwait ≡ 10 ∷ [])
unfolding count
stop_running_lem_example = stop_running_lem world start 1 start-IsOwned (omega arith)

rerun_failed-ends_example : (rerun_failed world 1 start).lists dl_stop ≡ []
unfolding count
rerun_failed-ends_example = rerun_failed-ends world start 1 refl start-IsOwned (omega arith)

abbrev offline : World
offline = record world { offline_mode = true }

rerun_failed-offline_example :
    (rerun_failed offline 9 start ≡ start)
    × ((rerun_failed offline 9 start).lists dl_stop ≡ 70 ∷ [])
rerun_failed-offline_example = rerun_failed-offline offline start 9 70 [] refl refl
