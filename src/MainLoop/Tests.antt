-- ===== src/MainLoop/Tests.antt =====
-- A round of the main loop, with one download to draw again and one whose thread has ended.
use d4x.Prelude.{◌<◌, true, false, [], ◌∷◌, ◌==◌, if◌then◌else◌, ltb, ◌≡◌, refl, arith}
use d4x.Downloads.{Downloads}
use d4x.Downloads.Moves.{World}
use d4x.Downloads.Events.{complete}
use d4x.Update.{Update, add_stopped}
use d4x.Update.Chain.{after, before, first_of, last_of, without}
use d4x.Update.Redraw.{Represents}
use d4x.Update.Stopped.{Stops, add_stopped-Stops}
use d4x.MainLoop.{Main, main_circle_nano2}
use d4x.MainLoop.Rounds.{ended_threads, main_circle_nano2_lem}

abbrev world : World
world = record {
  url = λ d. d;
  is_valid = λ d. true;
  scheduled = λ d. false;
  is_protected = λ d. false;
  starts = λ d. ltb d 50;
  overlapped = λ d. false;
  find_match = λ d. if d == 80 then 7 else 0;
  con_limit = λ r. 1;
  row = λ d. d;
  max_active = 3;
  autodel_completed = false;
  autodel_failed = false;
  offline_mode = false;
  allow_force_run = true;
  without_face = true;
  to_wait_if_here = false;
  do_not_run = false;
}

-- Downloads 20, 30 and 40 wait, 10 runs, and 70, whose thread cannot be started, has failed.
abbrev start : Downloads
start = record {
  lists = λ o.
      if o == 1
      then 10 ∷ []
      else if o == 2
      then 70 ∷ []
      else if o == 3
      then 20 ∷ 30 ∷ 40 ∷ []
      else [];
  owner = λ d.
      if d == 10
      then 1
      else if d == 70
      then 2
      else if d == 20
      then 3
      else if d == 30
      then 3
      else if d == 40
      then 3
      else 0;
  action = λ d. 0;
  known = 10 ∷ 20 ∷ 30 ∷ 40 ∷ 70 ∷ [];
  increased = 4;
  decreased = 0;
  dont_try_to_run = false;
  rule = λ d. 0;
  held = λ d. false;
  limited = λ r. [];
  lim_run = λ r. [];
  raised = λ r. 0;
  lowered = λ r. 0;
}

abbrev empty : Update
empty = record {
  first = 0;
  last = 0;
  first_s = 0;
  last_s = 0;
  next2update = λ _. 0;
  prev2update = λ _. 0;
  next2stop = λ _. 0;
  status = λ _. 0;
}

-- Download 10 has ended.
abbrev ended : Main
ended = record { downloads = start; update = add_stopped empty 10 1 }

ten : 0 < 10
ten = omega arith

ended-Stops : Stops ended.update (10 ∷ [])
unfolding first_of last_of after
ended-Stops = (add_stopped-Stops empty [] 10 1 (refl, refl, tt, λ e p. refl) ten refl).0

ended-Represents : Represents ended.update []
unfolding first_of last_of after before add_stopped
ended-Represents = (refl, refl, tt, λ e p. (refl, refl))

main_circle_nano2_lem_example :
    ((main_circle_nano2 world (λ k. complete) ended).downloads
      ≡ ended_threads world (λ d. complete) (10 ∷ []) start)
    × Stops (main_circle_nano2 world (λ k. complete) ended).update []
    × Represents (main_circle_nano2 world (λ k. complete) ended).update []
unfolding without
main_circle_nano2_lem_example =
    main_circle_nano2_lem world (λ k. complete) ended (10 ∷ []) [] refl ended-Stops ended-Represents
