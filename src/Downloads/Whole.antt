-- ===== src/Downloads/Whole.antt =====
-- The commands on the whole of a queue: their loops end, and what they leave.
use d4x.Prelude.{
  ℕ, zero, suc, ◌≤◌, ◌<◌, ◌≢◌, true, none, some, List, [], ◌∷◌, ◌++◌, ◌≡◌, refl, arith, ap, sym,
  ◌∙◌, length, append-nil, append_assoc,
}
use d4x.Downloads.{Downloads, add, del, count, without, dl_run, dl_stop, dl_stopwait, dl_sizequery}
use d4x.Downloads.Moves.{World, move, stop_moved, stop_download, continue_download}
use d4x.Downloads.Events.{head}
use d4x.Downloads.Lists.{swap_forward, swap_backward, stop_running, rerun_failed}
use d4x.Downloads.Owned.{IsOwned, occurs, is_first-owner}
use d4x.Downloads.Steps.{move-IsOwned}

swap_backward-link :
    (what a : ℕ) (xs : List ℕ) → a ≢ what → swap_backward what (a ∷ xs) ≡ a ∷ swap_backward what xs
unfolding swap_backward
swap_backward-link what a [] n = refl
swap_backward-link what a (b ∷ xs) n = ground arith

-- A download that is not the first of its list, moved one place towards the first and back, is at its
-- place again.
pub swap_backward-swap_forward :
    (what a : ℕ) (xs : List ℕ) → a ≢ what → swap_backward what (swap_forward what (a ∷ xs)) ≡ a ∷ xs
unfolding swap_backward swap_forward
swap_backward-swap_forward what a [] n = refl
swap_backward-swap_forward what a (b ∷ xs) n = ground (
  arith,
  swap_backward-link what a (swap_forward what (b ∷ xs)) n,
  swap_backward-swap_forward what b xs,
)

-- The first download of a list is in it.
pub first_owner :
    (s : Downloads) (d k : ℕ) (rest : List ℕ)
    → IsOwned s
    → 0 < k
    → s.lists k ≡ d ∷ rest
    → s.owner d ≡ k
unfolding IsOwned
first_owner s d k rest h p e = ground (arith, h d k p, ap (occurs d) e)

first_moved :
    (s : Downloads) (d : ℕ) (rest : List ℕ)
    → s.owner d ≡ dl_run
    → s.lists dl_run ≡ d ∷ rest
    → ((move s d dl_stopwait).lists dl_stopwait ≡ s.lists dl_stopwait ++ d ∷ [])
      × ((move s d dl_stopwait).lists dl_run ≡ rest)
unfolding move add del without
first_moved s d rest o e = rw (o, e) (refl, ground arith)

stop_first :
    (w : World) (s : Downloads) (d : ℕ)
    → IsOwned s
    → s.owner d ≡ dl_run
    → stop_download w s d ≡ move s d dl_stopwait
unfolding stop_download stop_moved
stop_first w s d h o =
    rw (is_first-owner s d dl_sizequery h (omega arith) (λ e. absurd (omega (arith, e, o))), o) refl

stop_next :
    (w : World) (s : Downloads) (d fuel : ℕ) (rest : List ℕ)
    → IsOwned s
    → s.lists dl_run ≡ d ∷ rest
    → stop_running w (suc fuel) s ≡ stop_running w fuel (move s d dl_stopwait)
unfolding stop_running head
stop_next w s d fuel rest h e =
    ap (λ l. elim (head l) [ none ↦ s | some d ↦ stop_running w fuel (stop_download w s d) ]) e
    ∙ ap (stop_running w fuel) (stop_first w s d h (first_owner s d dl_run rest h (omega arith) e))

stop_none : (w : World) (s : Downloads) (fuel : ℕ) → s.lists dl_run ≡ [] → stop_running w fuel s ≡ s
unfolding stop_running head
stop_none w s zero e = refl
stop_none w s (suc fuel) e =
    ap (λ l. elim (head l) [ none ↦ s | some d ↦ stop_running w fuel (stop_download w s d) ]) e

stop_running_loop :
    (w : World) (xs : List ℕ) (s : Downloads) (fuel : ℕ)
    → IsOwned s
    → s.lists dl_run ≡ xs
    → length xs ≤ fuel
    → ((stop_running w fuel s).lists dl_run ≡ [])
      × ((stop_running w fuel s).lists dl_stopwait ≡ s.lists dl_stopwait ++ xs)
stop_running_loop w [] s fuel h e l =
    rw (stop_none w s fuel e) (e, sym (append-nil (s.lists dl_stopwait)))
stop_running_loop w (d ∷ rest) s zero h e l = absurd (omega (arith, l))
stop_running_loop w (d ∷ rest) s (suc fuel) h e l =
    let (stops, runs) = first_moved s d rest (first_owner s d dl_run rest h (omega arith) e) e in
    let (none_run, all_stop) =
      stop_running_loop w rest (move s d dl_stopwait) fuel (move-IsOwned s d dl_stopwait h) runs
        (omega (arith, l)) in
    rw (stop_next w s d fuel rest h e) (
      none_run,
      all_stop ∙ ap (λ l. l ++ rest) stops ∙ append_assoc (s.lists dl_stopwait) (d ∷ []) rest,
    )

-- The loop of stop_all, which stops the first download that runs until none does, ends after as many
-- rounds as downloads ran, and has put them behind those whose thread is to stop, in their order.
pub stop_running_lem :
    (w : World) (s : Downloads) (fuel : ℕ)
    → IsOwned s
    → count s dl_run ≤ fuel
    → ((stop_running w fuel s).lists dl_run ≡ [])
      × ((stop_running w fuel s).lists dl_stopwait ≡ s.lists dl_stopwait ++ s.lists dl_run)
unfolding count
stop_running_lem w s fuel h l = stop_running_loop w (s.lists dl_run) s fuel h refl l

offline_continue :
    (w : World) (s : Downloads) (what : ℕ) → w.offline_mode ≡ true → continue_download w s what ≡ s
unfolding continue_download
offline_continue w s what f = simp f refl

pub rerun_next :
    (w : World) (s : Downloads) (fuel temp : ℕ) (rest : List ℕ)
    → s.lists dl_stop ≡ temp ∷ rest
    → rerun_failed w (suc fuel) s ≡ rerun_failed w fuel (continue_download w s temp)
unfolding rerun_failed head
rerun_next w s fuel temp rest e =
    ap (λ l. elim (head l) [ none ↦ s | some d ↦ rerun_failed w fuel (continue_download w s d) ]) e

pub rerun_none :
    (w : World) (s : Downloads) (fuel : ℕ) → s.lists dl_stop ≡ [] → rerun_failed w fuel s ≡ s
unfolding rerun_failed head
rerun_none w s zero e = refl
rerun_none w s (suc fuel) e =
    ap (λ l. elim (head l) [ none ↦ s | some d ↦ rerun_failed w fuel (continue_download w s d) ]) e

rerun_offline :
    (w : World) (s : Downloads) (fuel temp : ℕ) (rest : List ℕ)
    → w.offline_mode ≡ true
    → s.lists dl_stop ≡ temp ∷ rest
    → rerun_failed w fuel s ≡ s
unfolding rerun_failed
rerun_offline w s zero temp rest f e = refl
rerun_offline w s (suc fuel) temp rest f e =
    rerun_next w s fuel temp rest e
    ∙ ap (rerun_failed w fuel) (offline_continue w s temp f)
    ∙ rerun_offline w s fuel temp rest f e

-- In the offline mode the loop of rerun_failed over the failed downloads, if there is one, does not end:
-- after any number of rounds the state is what it was, and the list is not empty.
pub rerun_failed-offline :
    (w : World) (s : Downloads) (fuel temp : ℕ) (rest : List ℕ)
    → w.offline_mode ≡ true
    → s.lists dl_stop ≡ temp ∷ rest
    → (rerun_failed w fuel s ≡ s) × ((rerun_failed w fuel s).lists dl_stop ≡ temp ∷ rest)
rerun_failed-offline w s fuel temp rest f e =
    let stays = rerun_offline w s fuel temp rest f e in (stays, ap (λ t. t.lists dl_stop) stays ∙ e)
