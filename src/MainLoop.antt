-- ===== src/MainLoop.antt =====
-- main/main.cc: main_circle_nano1 and main_circle_nano2, the rounds of the main loop that take downloads
-- from the lists of main/dqueue.cc. Other threads put them there; the locks are held all the while.
pub mod Rounds
mod Tests
use d4x.Prelude.{ℕ, zero, suc, Bool, true, false, List, [], ◌∷◌, ◌==◌, if◌then◌else◌}
use d4x.Downloads.{Downloads}
use d4x.Downloads.Moves.{World}
use d4x.Downloads.Events.{Status, ended_thread}
use d4x.Update.{Update, del, del_first, del_s}

-- The downloads of a queue and D4X_UPDATE.
pub record Main : Type 0 where
  pub downloads : Downloads
  pub update : Update

-- The loop of tMain::main_circle_nano1; `i` is the variable of that name. What it draws is left out.
unfoldable pub redraw_loop : ℕ → Update → Update
unfolding del_first
redraw_loop zero u = u
redraw_loop (suc i) u = let rest = redraw_loop i (del_first u) in if u.first == 0 then u else rest

-- tMain::main_circle_nano1
unfoldable pub main_circle_nano1 : Main → Main
unfolding redraw_loop
main_circle_nano1 m = record m { update = redraw_loop 10 m.update }

-- The module's parameter reads `status` of a download.
module _ (w : World) (read_status : ℕ → Status) where
  -- The body of the loop of tMain::main_circle_nano2.
  unfoldable pub take_stopped : Main → Main
  unfolding del del_s ended_thread
  take_stopped m =
      let dwn = m.update.first_s in
      record m {
        update = del (del_s m.update) dwn;
        downloads = ended_thread w m.downloads dwn (read_status (m.update.status dwn));
      }

  -- The loop of tMain::main_circle_nano2, with the rounds that are left until `i++>5`.
  unfoldable pub stopped_loop : ℕ → Main → Main
  unfolding take_stopped
  stopped_loop zero m = m
  stopped_loop (suc rounds) m =
      let rest = stopped_loop rounds (take_stopped m) in if m.update.first_s == 0 then m else rest

  -- tMain::main_circle_nano2
  unfoldable pub main_circle_nano2 : Main → Main
  unfolding stopped_loop
  main_circle_nano2 m = if w.offline_mode then m else stopped_loop 7 m
