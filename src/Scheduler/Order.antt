-- ===== src/Scheduler/Order.antt =====
-- add_action keeps the list in the order of the start times, and changes nothing else of it.
use mathlib.Core.List.{Perm}
use mathlib.Core.List.Perm
use d4x.Prelude.{ℕ, ◌≤◌, inl, inr, List, [], ◌∷◌, ltb, arith, All, Bool-cases}
use d4x.Scheduler.{Action, Scheduler, place, add_action}

-- No action starts before one in front of it.
abbrev pub Sorted : List Action → Type 0
Sorted [] = Unit
Sorted (a ∷ l) = All (λ b. a.start_time ≤ b.start_time) l × Sorted l

pub All-place :
    (P : Action → Type 0) (l : List Action) (act : Action) → P act → All P l → All P (place l act)
unfolding place
All-place P [] act p h = (p, tt)
All-place P (tmp ∷ []) act p (q, h) = elim (Bool-cases (ltb act.start_time tmp.start_time)) [
  | inl e ↦ rw e (p, (q, tt))
  | inr e ↦ rw e (q, (p, tt))
]
All-place P (tmp ∷ next ∷ rest) act p (q, h) =
    elim (Bool-cases (ltb act.start_time tmp.start_time)) [
      | inl e ↦ rw e (p, (q, h))
      | inr e ↦ rw e (q, All-place P (next ∷ rest) act p h)
    ]

pub All-le :
    (l : List Action) (n m : ℕ)
    → n ≤ m
    → All (λ b. m ≤ b.start_time) l
    → All (λ b. n ≤ b.start_time) l
All-le [] n m h a = tt
All-le (b ∷ l) n m h (p, a) = (omega arith, All-le l n m h a)

pub place-Sorted : (l : List Action) (act : Action) → Sorted l → Sorted (place l act)
unfolding place
place-Sorted [] act s = (tt, tt)
place-Sorted (tmp ∷ []) act (h, s) = elim (Bool-cases (ltb act.start_time tmp.start_time)) [
  | inl e ↦ rw e (ground arith)
  | inr e ↦ rw e (ground arith)
]
place-Sorted (tmp ∷ next ∷ rest) act (h, s) =
    elim (Bool-cases (ltb act.start_time tmp.start_time)) [
      | inl e ↦
          let le : act.start_time ≤ tmp.start_time = ground arith in
          rw e ((le, All-le (next ∷ rest) act.start_time tmp.start_time le h), (h, s))
      | inr e ↦ rw e (
        All-place (λ b. tmp.start_time ≤ b.start_time) (next ∷ rest) act (ground arith) h,
        place-Sorted (next ∷ rest) act s,
      )
    ]

place-perm : (l : List Action) (act : Action) → Perm (place l act) (act ∷ l)
unfolding place
place-perm [] act = Perm.refl _
place-perm (tmp ∷ []) act = elim (Bool-cases (ltb act.start_time tmp.start_time)) [
  | inl e ↦ rw e (Perm.refl _)
  | inr e ↦ rw e (Perm.swap act tmp [])
]
place-perm (tmp ∷ next ∷ rest) act = elim (Bool-cases (ltb act.start_time tmp.start_time)) [
  | inl e ↦ rw e (Perm.refl _)
  | inr e ↦
      rw e (
        Perm.trans (Perm.cons tmp (place-perm (next ∷ rest) act)) (Perm.swap act tmp (next ∷ rest)))
]

-- Adding an action to a list in the order of the start times gives a list in that order, which
-- holds the old actions and the new one, unlocked, and nothing else.
pub add_action-Sorted :
    (s : Scheduler) (act : Action)
    → Sorted s.actions
    → Sorted (add_action s act).actions
      × Perm (add_action s act).actions ((record act { lock = 0 }) ∷ s.actions)
unfolding add_action
add_action-Sorted s act h = (place-Sorted s.actions _ h, place-perm s.actions _)
