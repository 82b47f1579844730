-- ===== src/Queue/Limit.antt =====
-- The limit of a queue, and the nodes that it keeps.
use d4x.Prelude.{
  ℕ, zero, suc, ◌+◌, ◌-◌, ◌≤◌, ◌<◌, true, some, List, [], ◌∷◌, ◌++◌, if◌then◌else◌, Bool-cases, ltb,
  length, length-append, drop, ◌≡◌, refl, arith, sym, inl, inr,
}
use d4x.Queue.{Queue, is_full, free_loop, with_items, free_to_limit, init, insert_last, insert}

-- Num is the number of nodes.
unfoldable pub Counted : Queue → Type 0
Counted q = q.num ≡ length q.items

-- By how many the nodes and one more are above the limit, if there is one.
unfoldable pub excess : Queue → ℕ
excess q = if ltb 0 q.max_num then length q.items + 1 - q.max_num else 0

excess_lem :
    (q : Queue)
    → excess q ≡ (if is_full q.max_num (length q.items) then length q.items + 1 - q.max_num else 0)
unfolding excess is_full
excess_lem q = ground arith

free_loop_lem :
    (max : ℕ) (items : List ℕ) (k : ℕ)
    → 0 < max
    → k ≡ length items + 1 - max
    → free_loop max items (length items) ≡ some (drop k items, length items - k)
unfolding free_loop
free_loop_lem max [] zero h e = ground arith
free_loop_lem max [] (suc k) h e = absurd (omega arith)
free_loop_lem max (x ∷ xs) zero h e = ground arith
free_loop_lem max (x ∷ xs) (suc k) h e =
    let one : suc (length xs) - 1 ≡ length xs = omega arith in
    let both : suc (length xs) - suc k ≡ length xs - k = omega arith in
    rw (one, free_loop_lem max xs k h (omega arith), both) (ground arith)

is_full→lt : (max num : ℕ) → is_full max num ≡ true → 0 < max
unfolding is_full
is_full→lt max num h = ground arith

pub free_to_limit_lem :
    (q : Queue)
    → Counted q
    → free_to_limit q
      ≡ some (record q { items = drop (excess q) q.items; num = length q.items - excess q })
unfolding free_to_limit Counted with_items
free_to_limit_lem q c = elim (Bool-cases (is_full q.max_num (length q.items))) [
  | inl h ↦
      rw
        (
          excess_lem q,
          c,
          h,
          free_loop_lem q.max_num q.items (length q.items + 1 - q.max_num)
              (is_full→lt q.max_num (length q.items) h) refl,
        )
        refl
  | inr h ↦
      let zero_less : length q.items - 0 ≡ length q.items = omega arith in
      rw (excess_lem q, c, h, zero_less) refl
]

-- An insertion into a queue whose Num is its number of nodes ends. If the queue has a limit, and its
-- nodes and one more are above it, then the oldest ones are disposed of, by as many as they are above
-- it; all others stay, in their order, and the new one is behind them.
pub insert_lem :
    (q : Queue) (what : ℕ)
    → Counted q
    → insert q what
      ≡ some (record q {
        items = drop (excess q) q.items ++ what ∷ [];
        num = length q.items - excess q + 1;
        curent = what;
      })
unfolding insert insert_last
insert_lem q what c = rw (free_to_limit_lem q c) refl

-- Num is the number of nodes, and it is not above the limit if there is one.
unfoldable pub Bounded : Queue → Type 0
unfolding Counted
Bounded q = Counted q × (0 < q.max_num → q.num ≤ q.max_num)

pub length-drop : (k : ℕ) (xs : List ℕ) → length (drop k xs) ≡ length xs - k
length-drop zero xs = omega arith
length-drop (suc k) [] = omega arith
length-drop (suc k) (x ∷ xs) = omega (arith, length-drop k xs)

-- What free_to_limit leaves is counted and below the limit.
room :
    (q : Queue)
    → (length (drop (excess q) q.items) ≡ length q.items - excess q)
      × (0 < q.max_num → length q.items - excess q < q.max_num)
unfolding excess
room q = (length-drop (excess q) q.items, λ h. ground arith)

-- An insertion into any queue whose Num is its number of nodes leaves a queue that is within its
-- limit, and whose Num is its number of nodes.
pub insert-Bounded :
    (q : Queue) (what : ℕ) → Counted q → (q' : Queue) × (insert q what ≡ some q') × Bounded q'
unfolding Bounded Counted
insert-Bounded q what c = (
  _,
  insert_lem q what c,
  (
    omega (arith, length-append (drop (excess q) q.items) (what ∷ []), (room q).0),
    λ h. omega (arith, (room q).1 h),
  ),
)

-- Setting a limit makes Num the number of nodes, whatever it was, and disposes of the oldest nodes
-- until fewer than the limit are left, if there is one.
pub init-Bounded :
    (n : ℕ) (q : Queue) → (q' : Queue) × (init n q ≡ some q') × Counted q' × (0 < n → q'.num < n)
unfolding init Counted
init-Bounded n q =
    let q₀ : Queue = record q { max_num = n; num = length q.items } in
    (_, free_to_limit_lem q₀ refl, sym (room q₀).0, (room q₀).1)
