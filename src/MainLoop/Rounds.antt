-- ===== src/MainLoop/Rounds.antt =====
-- main/main.cc: which downloads a round of the main loop takes, and in which order.
use d4x.Prelude.{
  ℕ, zero, suc, false, List, [], ◌∷◌, ◌==◌, take, drop, ◌≡◌, refl, arith, ap, ◌∙◌, if_intro,
}
use mathlib.Core.Path.{subst}
use d4x.Downloads.{Downloads}
use d4x.Downloads.Moves.{World}
use d4x.Downloads.Events.{Status, ended_thread}
use d4x.Update.{Update, unlink, del, del_first, del_s}
use d4x.Update.Chain.{first_of, without}
use d4x.Update.Removal.{without-cons}
use d4x.Update.Redraw.{Represents, del-Represents}
use d4x.Update.Stopped.{Stops, del_s-Stops}
use d4x.MainLoop.{
  Main, redraw_loop, main_circle_nano1, take_stopped, stopped_loop, main_circle_nano2,
}

-- The threads of these downloads have ended, one after the other.
abbrev pub ended_threads : World → (ℕ → Status) → List ℕ → Downloads → Downloads
ended_threads w status [] s = s
ended_threads w status (d ∷ rest) s = ended_threads w status rest (ended_thread w s d (status d))

-- The list of downloads to draw again loses its first one.
del_first-Represents :
    (u : Update) (x : ℕ) (xs : List ℕ) → Represents u (x ∷ xs) → Represents (del_first u) xs
unfolding del_first first_of
del_first-Represents u x xs (f, l, c, n) =
    subst (Represents (del u u.first))
      (ap (λ d. without d (x ∷ xs)) f ∙ without-cons x xs x ∙ ground arith)
      (del-Represents u (x ∷ xs) u.first (f, l, c, n))

redraw_loop-Represents :
    (i : ℕ) (u : Update) (xs : List ℕ) → Represents u xs → Represents (redraw_loop i u) (drop i xs)
unfolding redraw_loop first_of
redraw_loop-Represents zero u xs r = r
redraw_loop-Represents (suc i) u [] (f, l, c, n) =
    if_intro (λ v. Represents v []) (u.first == 0) {x = u} {y = redraw_loop i (del_first u)}
      (λ z. (f, l, c, n)) (λ z. absurd (ground (arith, f, z)))
redraw_loop-Represents (suc i) u (x ∷ xs) (f, l, c, n) =
    let more =
      redraw_loop-Represents i (del_first u) xs (del_first-Represents u x xs (f, l, c, n)) in
    if_intro (λ v. Represents v (drop i xs)) (u.first == 0) {x = u}
      {y = redraw_loop i (del_first u)} (λ z. absurd (ground (arith, c.1, f))) (λ _. more)

-- If the pointers are those of a list, then main_circle_nano1 takes the first ten downloads of it out,
-- or all, and the pointers are those of the rest.
pub main_circle_nano1-Represents :
    (m : Main) (xs : List ℕ)
    → Represents m.update xs
    → Represents (main_circle_nano1 m).update (drop 10 xs)
unfolding main_circle_nano1
main_circle_nano1-Represents m xs r = redraw_loop-Represents 10 m.update xs r

-- The two lists do not meet.
del-Stops : (u : Update) (d : ℕ) (xs : List ℕ) → Stops u xs → Stops (del u d) xs
unfolding del unlink
del-Stops u d xs h = if_intro (λ v. Stops v xs) _ {x = u} {y = unlink u d} (λ _. h) (λ _. h)

status-del : (u : Update) (d : ℕ) → (del u d).status ≡ u.status
unfolding del unlink
status-del u d =
    if_intro (λ v. v.status ≡ u.status) _ {x = u} {y = unlink u d} (λ _. refl) (λ _. refl)

status-del_s : (u : Update) → (del_s u).status ≡ u.status
unfolding del_s
status-del_s u = ground arith

del_s-Represents : (u : Update) (rs : List ℕ) → Represents u rs → Represents (del_s u) rs
unfolding del_s
del_s-Represents u rs h = if_intro (λ v. Represents v rs) (u.first_s == 0) {x = u} (λ _. h) (λ _. h)

-- A list without these downloads.
abbrev pub without_all : List ℕ → List ℕ → List ℕ
without_all [] rs = rs
without_all (d ∷ ds) rs = without_all ds (without d rs)

module _ (w : World) (read_status : ℕ → Status) where
  -- What is left of the state when these downloads were taken.
  Taken : List ℕ → List ℕ → List ℕ → (ℕ → ℕ) → Main → Main → Type 0
  Taken xs left rs status m m' =
      (m'.downloads ≡ ended_threads w (λ d. read_status (status d)) xs m.downloads)
      × Stops m'.update left
      × Represents m'.update (without_all xs rs)

  take_stopped_lem :
      (m : Main) (x : ℕ) (xs rs : List ℕ)
      → Stops m.update (x ∷ xs)
      → Represents m.update rs
      → Stops (take_stopped w read_status m).update xs
        × Represents (take_stopped w read_status m).update (without x rs)
        × ((take_stopped w read_status m).update.status ≡ m.update.status)
        × ((take_stopped w read_status m).downloads
            ≡ ended_thread w m.downloads x (read_status (m.update.status x)))
  unfolding take_stopped first_of
  take_stopped_lem m x xs rs (f, l, c, n) r = (
    del-Stops (del_s m.update) m.update.first_s xs (del_s-Stops m.update x xs (f, l, c, n)),
    subst (λ d. Represents (del (del_s m.update) m.update.first_s) (without d rs)) f
        (del-Represents (del_s m.update) rs m.update.first_s (del_s-Represents m.update rs r)),
    status-del (del_s m.update) m.update.first_s ∙ status-del_s m.update,
    ap (λ d. ended_thread w m.downloads d (read_status (m.update.status d))) f,
  )

  stopped_loop_lem :
      (rounds : ℕ) (m : Main) (xs rs : List ℕ) (status : ℕ → ℕ)
      → m.update.status ≡ status
      → Stops m.update xs
      → Represents m.update rs
      → Taken (take rounds xs) (drop rounds xs) rs status m (stopped_loop w read_status rounds m)
  unfolding Taken stopped_loop first_of
  stopped_loop_lem zero m xs rs status u h r = (refl, h, r)
  stopped_loop_lem (suc rounds) m [] rs status u (f, l, c, n) r =
      if_intro (Taken [] [] rs status m) (m.update.first_s == 0) {x = m}
        (λ _. (refl, (f, l, c, n), r)) (λ z. absurd (ground (arith, f, z)))
  stopped_loop_lem (suc rounds) m (x ∷ xs) rs status u (f, l, c, n) r =
      let (stops, represents, same, ended) = take_stopped_lem m x xs rs (f, l, c, n) r in
      let t : Main = take_stopped w read_status m in
      let (all_ended, left, drawn) =
        stopped_loop_lem rounds t xs (without x rs) status (same ∙ u) stops represents in
      if_intro (Taken (x ∷ take rounds xs) (drop rounds xs) rs status m) (m.update.first_s == 0)
        {x = m} (λ z. absurd (ground (arith, c.1, f, z)))
        (λ _. (
          all_ended
              ∙ ap (ended_threads w (λ d. read_status (status d)) (take rounds xs))
                  (ended ∙ ap (λ g. ended_thread w m.downloads x (read_status (g x))) u),
          left,
          drawn,
        ))

  -- If the pointers of both lists of D4X_UPDATE are those of lists, then out of the offline mode
  -- main_circle_nano2 handles the ends of the first seven threads of the one, or of all, in their
  -- order; the pointers are then those of the rest of that list, and of the other without these seven.
  pub main_circle_nano2_lem :
      (m : Main) (xs rs : List ℕ)
      → w.offline_mode ≡ false
      → Stops m.update xs
      → Represents m.update rs
      → ((main_circle_nano2 w read_status m).downloads
          ≡ ended_threads w (λ d. read_status (m.update.status d)) (take 7 xs) m.downloads)
        × Stops (main_circle_nano2 w read_status m).update (drop 7 xs)
        × Represents (main_circle_nano2 w read_status m).update (without_all (take 7 xs) rs)
  unfolding main_circle_nano2 Taken
  main_circle_nano2_lem m xs rs o h r =
      if_intro (Taken (take 7 xs) (drop 7 xs) rs m.update.status m) w.offline_mode {x = m}
        (λ z. absurd (ground (arith, o, z)))
        (λ _. stopped_loop_lem 7 m xs rs m.update.status refl h r)
