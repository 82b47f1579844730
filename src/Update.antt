-- ===== src/Update.antt =====
-- main/dqueue.cc: d4xDUpdate, the downloads whose row is to be drawn again and those whose thread has
-- ended. Both are lists through fields of the downloads, which are addresses; 0 is the pointer NULL.
-- The locks around the operations make each of them one step.
pub mod Chain
pub mod Removal
pub mod Redraw
pub mod Stopped
mod Tests
use d4x.Prelude.{
  ℕ, zero, suc, Bool, true, false, ◌&&◌, ◌||◌, not, List, [], ◌∷◌, ◌==◌, if◌then◌else◌,
}

-- d4xDUpdate: first, last, first_s and last_s; and of the downloads next2update, prev2update,
-- next2stop and status.
pub record Update : Type 0 where
  pub first : ℕ
  pub last : ℕ
  pub first_s : ℕ
  pub last_s : ℕ
  pub next2update : ℕ → ℕ
  pub prev2update : ℕ → ℕ
  pub next2stop : ℕ → ℕ
  pub status : ℕ → ℕ

-- A field of one download changed.
abbrev pub write : (ℕ → ℕ) → ℕ → ℕ → ℕ → ℕ
write f k v q = if q == k then v else f q

-- `what->prev2update==NULL && what->next2update==NULL && first!=what`
unfoldable pub is_out : Update → ℕ → Bool
is_out u d = (u.prev2update d == 0) && (u.next2update d == 0) && not (u.first == d)

-- The end of d4xDUpdate::add_without_lock: the download becomes the last one.
unfoldable pub link_last : Update → ℕ → Update
link_last u d = record u {
  first = if u.last == 0 then d else u.first;
  next2update = if u.last == 0 then u.next2update else write u.next2update u.last d;
  prev2update = write u.prev2update d u.last;
  last = d;
}

-- d4xDUpdate::add_without_lock; `grandparent` is 0 for a download that is no part of another.
unfoldable pub add_without_lock : (ℕ → ℕ) → Update → ℕ → Update
unfolding is_out link_last
add_without_lock grandparent u dwn =
    let d = if grandparent dwn == 0 then dwn else grandparent dwn in
    if is_out u d then link_last u d else u

-- d4xDUpdate::del of a download that is in the list.
unfoldable pub unlink : Update → ℕ → Update
unlink u d =
    let n = u.next2update d in
    let p = u.prev2update d in
    record u {
      last = if n == 0 then p else u.last;
      first = if p == 0 then n else u.first;
      prev2update = write (if n == 0 then u.prev2update else write u.prev2update n p) d 0;
      next2update = write (if p == 0 then u.next2update else write u.next2update p n) d 0;
    }

-- d4xDUpdate::del
unfoldable pub del : Update → ℕ → Update
unfolding unlink
del u d =
    if (d == 0) || ((u.next2update d == 0) && (u.prev2update d == 0) && not (d == u.first))
    then u
    else unlink u d

-- d4xDUpdate::del of the first one.
unfoldable pub del_first : Update → Update
unfolding del
del_first u = del u u.first

-- d4xDUpdate::update, of the downloads of a list.
unfoldable pub update : (ℕ → ℕ) → List ℕ → Update → Update
unfolding add_without_lock
update grandparent [] u = u
update grandparent (dwn ∷ rest) u = update grandparent rest (add_without_lock grandparent u dwn)

-- d4xDUpdate::add of a download whose thread has ended, with its status.
unfoldable pub add_stopped : Update → ℕ → ℕ → Update
add_stopped u d status =
    let v =
      if u.next2stop d == 0
      then (record u {
        first_s = if u.last_s == 0 then d else u.first_s;
        next2stop = if u.last_s == 0 then u.next2stop else write u.next2stop u.last_s d;
        last_s = d;
      })
      else u in
    record v { status = write v.status d status }

-- d4xDUpdate::del_s
unfoldable pub del_s : Update → Update
del_s u = if u.first_s == 0 then u else (record u {
  first_s = u.next2stop u.first_s;
  last_s = if u.next2stop u.first_s == 0 then 0 else u.last_s;
  next2stop = write u.next2stop u.first_s 0;
})
