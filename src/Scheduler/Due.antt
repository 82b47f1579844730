-- ===== src/Scheduler/Due.antt =====
-- The loop over the due actions: when it ends, what it leaves, and when it never ends.
use d4x.Prelude.{
  ℕ, zero, suc, ◌+◌, ◌≤◌, ◌<◌, ◌≡◌, ◌⊎◌, refl, ap, ◌∙◌, inl, inr, true, false, none, some, List, [],
  ◌∷◌, ltb, if◌then◌else◌, arith, All, Bool-cases,
}
use d4x.Scheduler.{
  Retries, unlimited, left, Action, Scheduler, place, add_action, unlink, del_action, is_spent,
  count_down, advance, reschedule, clear_loop,
}
use d4x.Scheduler.Order.{Sorted, All-le, All-place, place-Sorted}

-- The action after one round of the loop.
abbrev later : Action → Action
later act = record act {
  start_time = act.start_time + act.period;
  retries = count_down act.retries;
}

advance_round :
    (fuel now : ℕ) (act : Action)
    → act.start_time < now
    → is_spent act.retries ≡ false
    → advance (suc fuel) now act ≡ advance fuel now (later act)
unfolding advance
advance_round fuel now act h k =
    let due : ltb act.start_time now ≡ true = ground arith in rw (due, k)

-- An action with no limit on its runs, no period and a start before now stays due: the loop that
-- puts it off does not end, however long it runs.
pub advance_never_ends :
    (fuel now : ℕ) (act : Action)
    → act.retries ≡ unlimited
    → act.period ≡ 0
    → act.start_time < now
    → advance fuel now act ≡ none
unfolding count_down is_spent
advance_never_ends zero now act r p h = unfold advance in refl
advance_never_ends (suc fuel) now act r p h =
    advance_round fuel now act h (ap is_spent r)
    ∙ advance_never_ends fuel now (later act) (ap count_down r) p (omega arith)

-- Fuel enough for the loop: a round for each second up to now, or for each run that is left.
abbrev pub EnoughFor : (fuel now start period : ℕ) → Retries → Type 0
EnoughFor fuel now start period unlimited = (0 < period) × (0 < fuel) × (now < start + fuel)
EnoughFor fuel now start period (left n) = n < fuel

abbrev pub Enough : ℕ → ℕ → Action → Type 0
Enough fuel now act = EnoughFor fuel now act.start_time act.period act.retries

-- The action after the loop: not due, or spent.
abbrev pub PutOff : ℕ → Action → Type 0
PutOff now act = (now ≤ act.start_time) ⊎ (is_spent act.retries ≡ true)

EnoughFor-count_down :
    (r : Retries) (fuel now start period : ℕ)
    → start < now
    → is_spent r ≡ false
    → EnoughFor (suc fuel) now start period r
    → EnoughFor fuel now (start + period) period (count_down r)
unfolding is_spent count_down
EnoughFor-count_down unlimited fuel now start period h k (p, e, f) = (p, omega arith, omega arith)
EnoughFor-count_down (left zero) fuel now start period h k e = cc
EnoughFor-count_down (left (suc n)) fuel now start period h k e = omega arith

no_fuel : (r : Retries) (now start period : ℕ) → EnoughFor 0 now start period r → ⊥
no_fuel unlimited now start period h = omega arith
no_fuel (left n) now start period h = omega arith

pub advance_ends :
    (fuel now : ℕ) (act : Action)
    → Enough fuel now act
    → (act' : Action) × (advance fuel now act ≡ some act') × PutOff now act'
advance_ends zero now act h = absurd (no_fuel act.retries now act.start_time act.period h)
advance_ends (suc fuel) now act h = elim (Bool-cases (is_spent act.retries)) [
  | inl spent ↦ (act, unfold advance in ground arith, inr spent)
  | inr more ↦ elim (Bool-cases (ltb act.start_time now)) [
    | inl due ↦
        let d : act.start_time < now = ground arith in
        let (act', eq, p) =
          advance_ends fuel now (later act)
            (EnoughFor-count_down act.retries fuel now act.start_time act.period d more h) in
        (act', advance_round fuel now act d more ∙ eq, p)
    | inr rest ↦ (act, unfold advance in ground arith, inl (ground arith))
  ]
]

-- How many actions of the list are due.
abbrev due_count : ℕ → List Action → ℕ
due_count now [] = 0
due_count now (a ∷ l) = (if ltb a.start_time now then 1 else 0) + due_count now l

due_count-place :
    (now : ℕ) (l : List Action) (act : Action)
    → now ≤ act.start_time
    → due_count now (place l act) ≡ due_count now l
unfolding place
due_count-place now [] act h = ground arith
due_count-place now (tmp ∷ []) act h = ground arith
due_count-place now (tmp ∷ next ∷ rest) act h =
    ground (arith, due_count-place now (next ∷ rest) act h)

due_count_none :
    (now : ℕ) (a : Action) (l : List Action)
    → Sorted (a ∷ l)
    → now ≤ a.start_time
    → All (λ b. now ≤ b.start_time) (a ∷ l)
due_count_none now a l (h, s) k = (k, All-le l now a.start_time k h)

reschedule-tail :
    (fuel now : ℕ) (s : Scheduler) (act : Action) (rest : List Action)
    → s.actions ≡ act ∷ rest
    → act.start_time < now
    → Sorted rest
    → All (λ a. a.start_time < now → Enough fuel now a) (act ∷ rest)
    → (s' : Scheduler) × (reschedule fuel now s act ≡ some s')
      × Sorted s'.actions
      × All (λ a. a.start_time < now → Enough fuel now a) s'.actions
      × (due_count now s'.actions ≡ due_count now rest)
unfolding reschedule
reschedule-tail fuel now s act rest e d srt (en, ens) =
    let (act', eq, p) = advance_ends fuel now act (en d) in
    let gone : (del_action s act).actions ≡ rest =
      unfold del_action in rw e (unfold unlink in ground arith) in
    elim (Bool-cases (is_spent act'.retries)) [
      | inl spent ↦ (
        del_action s act,
        rw (eq, reschedule, spent),
        rw gone srt,
        rw gone ens,
        ap (due_count now) gone,
      )
      | inr more ↦
          let ok : now ≤ act'.start_time = elim p [ inl h ↦ h | inr h ↦ cc ] in
          let new = record act' { lock = 0 } in
          (
            add_action (del_action s act) act',
            rw (eq, reschedule, more),
            unfold add_action in rw gone (place-Sorted rest new srt),
            unfold add_action in rw gone (All-place _ rest new (λ h. absurd (omega arith)) ens),
            unfold add_action in rw gone (due_count-place now rest new ok),
          )
    ]

clear_loop_lem :
    (rounds fuel now : ℕ) (s : Scheduler) (l : List Action)
    → s.actions ≡ l
    → Sorted l
    → due_count now l < rounds
    → All (λ a. a.start_time < now → Enough fuel now a) l
    → (s' : Scheduler) × (clear_loop rounds fuel now s ≡ some s')
      × Sorted s'.actions
      × All (λ a. now ≤ a.start_time) s'.actions
unfolding clear_loop
clear_loop_lem zero fuel now s l e srt h en = absurd (omega arith)
clear_loop_lem (suc rounds) fuel now s [] e srt h en = (s, ground arith, rw e srt, rw e tt)
clear_loop_lem (suc rounds) fuel now s (tmp ∷ rest) e srt h en =
    elim (Bool-cases (ltb tmp.start_time now)) [
      | inl due ↦
          let d : tmp.start_time < now = ground arith in
          let (s1, eq, srt1, en1, cnt) = reschedule-tail fuel now s tmp rest e d srt.1 en in
          let (s', eq', srt', ok) =
            clear_loop_lem rounds fuel now s1 s1.actions refl srt1 (ground arith) en1 in
          (s', ground arith, srt', ok)
      | inr rest_ok ↦
          (s, ground arith, rw e srt, rw e (due_count_none now tmp rest srt (ground arith)))
    ]

-- If the list is in the order of the start times and every due action has a period or a limit on
-- its runs that the fuel covers, then clear_old ends, with a round of its loop for each due action and
-- one more, the list is in that order again, and no action of it is due.
pub clear_loop_ends :
    (rounds fuel now : ℕ) (s : Scheduler)
    → Sorted s.actions
    → due_count now s.actions < rounds
    → All (λ a. a.start_time < now → Enough fuel now a) s.actions
    → (s' : Scheduler) × (clear_loop rounds fuel now s ≡ some s')
      × Sorted s'.actions
      × All (λ a. now ≤ a.start_time) s'.actions
clear_loop_ends rounds fuel now s = clear_loop_lem rounds fuel now s s.actions refl
