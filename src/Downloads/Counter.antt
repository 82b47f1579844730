-- ===== src/Downloads/Counter.antt =====
-- RUN_OR_WAIT_DOWNLOADS, which add and del keep and insert_before does not.
use d4x.Prelude.{
  ℕ, ◌+◌, ◌<◌, true, false, none, List, [], ◌∷◌, ◌≡◌, arith, length, length-append, ap,
}
use d4x.Downloads.{
  Downloads, add, del, insert_before, count, without, put_before, is_run_or_wait, dl_run, dl_wait,
}
use d4x.Downloads.Moves.{World, move, try_to_run_wait}
use d4x.Downloads.Events.{head, find_known, put_waiting, add_new, add_found, add_downloading}
use d4x.Downloads.Owned.{IsOwned, occurs}

-- The value of RUN_OR_WAIT_DOWNLOADS is the number of the downloads that run or wait.
unfoldable pub IsCounted : Downloads → Type 0
IsCounted s = s.increased ≡ s.decreased + count s dl_run + count s dl_wait

pub length-without : (w : ℕ) (xs : List ℕ) → 0 < occurs w xs → length (without w xs) + 1 ≡ length xs
unfolding without
length-without w [] h = absurd (omega arith)
length-without w (a ∷ xs) h = ground (arith, length-without w xs)

length-put_before :
    (w place : ℕ) (xs : List ℕ)
    → 0 < occurs place xs
    → length (put_before w place xs) ≡ length xs + 1
unfolding put_before
length-put_before w place [] h = absurd (omega arith)
length-put_before w place (a ∷ xs) h = ground (arith, length-put_before w place xs)

add-IsCounted : (s : Downloads) (what key : ℕ) → IsCounted s → IsCounted (add s what key)
unfolding IsCounted add count is_run_or_wait
add-IsCounted s what key h = ground (arith, length-append (s.lists key) (what ∷ []))

del-IsCounted : (s : Downloads) (what : ℕ) → IsOwned s → IsCounted s → IsCounted (del s what)
unfolding IsCounted IsOwned del count is_run_or_wait
del-IsCounted s what o h =
    ground (arith, length-without what (s.lists (s.owner what)), o what (s.owner what))

-- A move of a download from its list to another keeps RUN_OR_WAIT_DOWNLOADS the number of those that
-- run or wait.
pub move-IsCounted :
    (s : Downloads) (what key : ℕ) → IsOwned s → IsCounted s → IsCounted (move s what key)
unfolding move
move-IsCounted s what key o h = add-IsCounted (del s what) what key (del-IsCounted s what o h)

insert_before-drifts :
    (s : Downloads) (what place : ℕ)
    → IsOwned s
    → s.owner place ≡ dl_wait
    → IsCounted s
    → (insert_before s what place).increased + 1
      ≡ (insert_before s what place).decreased
        + count (insert_before s what place) dl_run
        + count (insert_before s what place) dl_wait
unfolding IsCounted IsOwned insert_before count
insert_before-drifts s what place o e h =
    ground (arith, length-put_before what place (s.lists dl_wait), o place dl_wait)

dont_try-insert_before :
    (s : Downloads) (what place : ℕ)
    → (insert_before s what place).dont_try_to_run ≡ s.dont_try_to_run
unfolding insert_before
dont_try-insert_before s what place = ground arith

add_to_top :
    (w : World) (s : Downloads) (what first : ℕ) (rest : List ℕ)
    → find_known w s.known what ≡ none
    → w.is_valid what ≡ true
    → w.scheduled what ≡ false
    → s.dont_try_to_run ≡ true
    → s.lists dl_wait ≡ first ∷ rest
    → add_downloading w s what true ≡ insert_before (record s { known = what ∷ s.known }) what first
unfolding add_downloading add_found add_new put_waiting head try_to_run_wait
add_to_top w s what first rest f v n d e =
    ground (arith, dont_try-insert_before (record s { known = what ∷ s.known }) what first)

-- A new download that is put in front of those that wait (`to_top`), while nothing is started, makes
-- RUN_OR_WAIT_DOWNLOADS one less than the number of the downloads that run or wait.
pub add_downloading-drifts :
    (w : World) (s : Downloads) (what first : ℕ) (rest : List ℕ)
    → IsOwned s
    → IsCounted s
    → find_known w s.known what ≡ none
    → w.is_valid what ≡ true
    → w.scheduled what ≡ false
    → s.dont_try_to_run ≡ true
    → s.lists dl_wait ≡ first ∷ rest
    → (add_downloading w s what true).increased + 1
      ≡ (add_downloading w s what true).decreased
        + count (add_downloading w s what true) dl_run
        + count (add_downloading w s what true) dl_wait
unfolding IsOwned IsCounted count
add_downloading-drifts w s what first rest o h f v n d e =
    rw (add_to_top w s what first rest f v n d e) (
      insert_before-drifts (record s { known = what ∷ s.known }) what first o
        (ground (arith, o first dl_wait (omega arith), ap (occurs first) e)) h)
