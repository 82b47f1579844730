-- ===== src/Scheduler.antt =====
-- main/schedule.cc and main/schedule.h: the list of scheduled actions, first the one that is due first.
-- The list holds the actions in the order of their `next` links. Times are seconds, not negative;
-- the clock is a parameter, and so is what an action does when it runs.
mod Order
mod Due
mod Tests
use d4x.Prelude.{
  ℕ, zero, suc, ◌+◌, ◌-◌, Bool, true, false, ◌&&◌, not, Option, none, some, List, [], ◌∷◌, ltb,
  ◌==◌, if◌then◌else◌,
}

-- `retries`: -1 and below stand for no limit, 0 for no further run.
pub data Retries : Type 0 where
  unlimited : Retries
  left : ℕ → Retries

-- d4xSchedAction: `at` is its address.
pub record Action : Type 0 where
  pub at : ℕ
  pub start_time : ℕ
  pub period : ℕ
  pub retries : Retries
  pub lock : ℕ

-- d4xScheduler: FIRST and what follows it, and `changed`.
pub record Scheduler : Type 0 where
  pub actions : List Action
  pub changed : ℕ

-- The loop and the branches of d4xScheduler::add_action: it stops at the first action that starts
-- later, or at the last one.
pub place : List Action → Action → List Action
place [] act = act ∷ []
place (tmp ∷ []) act = if ltb act.start_time tmp.start_time then act ∷ tmp ∷ [] else tmp ∷ act ∷ []
place (tmp ∷ next ∷ rest) act =
    if ltb act.start_time tmp.start_time
    then act ∷ tmp ∷ next ∷ rest
    else tmp ∷ place (next ∷ rest) act

-- d4xScheduler::add_action
pub add_action : Scheduler → Action → Scheduler
unfolding place
add_action s act = record s { actions = place s.actions (record act { lock = 0 }); changed = 1 }

-- What del_action leaves of the list: the action is known by its address.
pub unlink : List Action → ℕ → List Action
unlink [] p = []
unlink (tmp ∷ rest) p = if tmp.at == p then rest else tmp ∷ unlink rest p

-- d4xScheduler::del_action
pub del_action : Scheduler → Action → Scheduler
unfolding unlink
del_action s act = record s { actions = unlink s.actions act.at; changed = 1 }

pub is_spent : Retries → Bool
is_spent unlimited = false
is_spent (left zero) = true
is_spent (left (suc n)) = false

-- `if (tmp->retries>0) tmp->retries-=1`
pub count_down : Retries → Retries
count_down unlimited = unlimited
count_down (left n) = left (n - 1)

-- `while (tmp->start_time<now && tmp->retries!=0)` of clear_old and run, with fuel; `none` means
-- that the loop has not ended.
pub advance : ℕ → ℕ → Action → Option Action
unfolding is_spent count_down
advance zero now act = none
advance (suc fuel) now act =
    let next =
      advance fuel now (record act {
        start_time = act.start_time + act.period;
        retries = count_down act.retries;
      }) in
    if ltb act.start_time now && not (is_spent act.retries) then next else some act

-- What clear_old does with an action that is due: it is taken out and, unless it is spent, put back
-- where its next start belongs.
pub reschedule : ℕ → ℕ → Scheduler → Action → Option Scheduler
unfolding advance del_action add_action is_spent
reschedule fuel now s act = elim (advance fuel now act) [
  | none ↦ none
  | some act' ↦
      if is_spent act'.retries
      then some (del_action s act)
      else some (add_action (del_action s act) act')
]

-- The loop of d4xScheduler::clear_old, with `rounds` for the loop and `fuel` for the loop within
-- it. The next action is always the first: those before it were taken out, and one that was put
-- back in front of it is not due either, like itself, and ends the loop as it would.
pub clear_loop : ℕ → ℕ → ℕ → Scheduler → Option Scheduler
unfolding reschedule
clear_loop zero fuel now s = none
clear_loop (suc rounds) fuel now s = elim s.actions [
  | [] ↦ some s
  | tmp ∷ rest ↦
      if ltb tmp.start_time now
      then elim (reschedule fuel now s tmp) [
        | none ↦ none
        | some s' ↦ clear_loop rounds fuel now s'
      ]
      else some s
]
