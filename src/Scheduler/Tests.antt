-- ===== src/Scheduler/Tests.antt =====
-- Runs of the scheduler, and the theorems at concrete lists of actions.
use mathlib.Core.List.{Perm}
use d4x.Prelude.{ℕ, ◌≤◌, ◌≡◌, refl, some, [], ◌∷◌, All, arith}
use d4x.Scheduler.{Retries, unlimited, left, Action, Scheduler, add_action, clear_loop}
use d4x.Scheduler.Order.{Sorted, add_action-Sorted}
use d4x.Scheduler.Due.{clear_loop_ends}

abbrev action : ℕ → ℕ → ℕ → Retries → Action
action p start period r = record {
  at = p;
  start_time = start;
  period = period;
  retries = r;
  lock = 0;
}

abbrev scheduler : Scheduler
scheduler = record {
  actions = action 1 10 5 unlimited ∷ action 2 12 0 (left 0) ∷ action 3 30 0 (left 1) ∷ [];
  changed = 0;
}

add_between :
    (add_action scheduler (action 4 12 0 unlimited)).actions
    ≡ action 1 10 5 unlimited
      ∷ action 2 12 0 (left 0)
      ∷ action 4 12 0 unlimited
      ∷ action 3 30 0 (left 1)
      ∷ []
unfolding add_action
add_between = refl

clear_at_20 :
    clear_loop 5 20 20 scheduler
    ≡ some (record { actions = action 1 20 5 unlimited ∷ action 3 30 0 (left 1) ∷ []; changed = 1 })
unfolding clear_loop
clear_at_20 = refl

add_action-Sorted_example :
    Sorted (add_action scheduler (action 4 12 0 unlimited)).actions
    × Perm
        (add_action scheduler (action 4 12 0 unlimited)).actions
        (action 4 12 0 unlimited ∷ scheduler.actions)
add_action-Sorted_example = add_action-Sorted scheduler (action 4 12 0 unlimited) (omega arith)

clear_loop_ends_example :
    (s' : Scheduler) × (clear_loop 5 20 20 scheduler ≡ some s')
    × Sorted s'.actions
    × All (λ a. 20 ≤ a.start_time) s'.actions
clear_loop_ends_example =
    clear_loop_ends 5 20 20 scheduler (omega arith) (omega arith) (omega arith)
