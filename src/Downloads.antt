-- ===== src/Downloads.antt =====
-- The lists of a queue of downloads: d4xDownloadQueue of main/dqueue.cc, tDList of main/dlist.cc and
-- ALL_DOWNLOADS. A download is known by its address; a list holds its downloads from First to Last.
-- The windows are left out. The children model what tMain of main/main.cc does with the lists.
pub mod Rules
pub mod Moves
pub mod Events
pub mod Owned
pub mod Steps
pub mod Commands
pub mod Ends
pub mod Reach
pub mod Limit
pub mod Starts
pub mod Lists
pub mod Whole
pub mod Rerun
pub mod Ruled
pub mod Counter
mod Tests
use d4x.Prelude.{
  ℕ, zero, suc, ◌+◌, ◌-◌, Bool, true, false, ◌&&◌, ◌||◌, not, List, [], ◌∷◌, ◌++◌, ◌==◌, leb, ltb,
  if◌then◌else◌, length,
}

-- DL_ALONE to DL_LIMIT: the list that a download is in, DL_ALONE for none.
abbrev pub dl_alone : ℕ
dl_alone = 0

abbrev pub dl_run : ℕ
dl_run = 1

abbrev pub dl_stop : ℕ
dl_stop = 2

abbrev pub dl_wait : ℕ
dl_wait = 3

abbrev pub dl_pause : ℕ
dl_pause = 4

abbrev pub dl_complete : ℕ
dl_complete = 5

abbrev pub dl_stopwait : ℕ
dl_stopwait = 6

abbrev pub dl_sizequery : ℕ
dl_sizequery = 7

abbrev pub dl_limit : ℕ
dl_limit = 8

-- ACTION_NONE to ACTION_SIZEQUERY: what is to be done with a download once its thread has stopped.
abbrev pub action_none : ℕ
action_none = 0

abbrev pub action_delete : ℕ
action_delete = 1

abbrev pub action_continue : ℕ
action_continue = 2

abbrev pub action_stop : ℕ
action_stop = 3

abbrev pub action_failed : ℕ
action_failed = 4

abbrev pub action_real_delete : ℕ
action_real_delete = 5

abbrev pub action_sizequery : ℕ
action_sizequery = 6

-- The lists by their key (`queues`), the key of the list of each download (`owner ()`), the actions,
-- the downloads that ALL_DOWNLOADS holds, and DONTRY2RUN. RUN_OR_WAIT_DOWNLOADS, which can fall below
-- zero, is the difference of the times that it was increased and decreased. Then the URL manager's
-- (face/passface.cc): of a download with a link `regex_match` the rule that the link is of, 0 for no
-- link, and whether the link is in the list `limited` of its rule or in `lim_run`; of a rule the
-- downloads of both lists, and cur_limit, which is again such a difference.
pub record Downloads : Type 0 where
  pub lists : ℕ → List ℕ
  pub owner : ℕ → ℕ
  pub action : ℕ → ℕ
  pub known : List ℕ
  pub increased : ℕ
  pub decreased : ℕ
  pub dont_try_to_run : Bool
  pub rule : ℕ → ℕ
  pub held : ℕ → Bool
  pub limited : ℕ → List ℕ
  pub lim_run : ℕ → List ℕ
  pub raised : ℕ → ℕ
  pub lowered : ℕ → ℕ

-- A function changed at one argument.
abbrev pub update {ℓ} : {A : Type ℓ} → (ℕ → A) → ℕ → A → ℕ → A
update f k v q = if q == k then v else f q

-- A list without a node.
unfoldable pub without : ℕ → List ℕ → List ℕ
without what [] = []
without what (a ∷ rest) = let more = without what rest in if a == what then rest else a ∷ more

-- A node put in front of another.
unfoldable pub put_before : ℕ → ℕ → List ℕ → List ℕ
put_before what place [] = []
put_before what place (a ∷ rest) =
    let more = put_before what place rest in if a == place then what ∷ a ∷ rest else a ∷ more

-- `where==DL_WAIT || where==DL_RUN`
unfoldable pub is_run_or_wait : ℕ → Bool
is_run_or_wait key = (key == dl_wait) || (key == dl_run)

-- d4xDownloadQueue::add, with tDList::insert.
unfoldable pub add : Downloads → ℕ → ℕ → Downloads
unfolding is_run_or_wait
add s what key = record s {
  lists = update s.lists key (s.lists key ++ what ∷ []);
  owner = update s.owner what key;
  increased = if is_run_or_wait key then suc s.increased else s.increased;
}

-- d4xDownloadQueue::del, with tDList::del; a download in no list is left alone.
unfoldable pub del : Downloads → ℕ → Downloads
unfolding is_run_or_wait without
del s what = if s.owner what == dl_alone then s else (record s {
  lists = update s.lists (s.owner what) (without what (s.lists (s.owner what)));
  owner = update s.owner what dl_alone;
  decreased = if is_run_or_wait (s.owner what) then suc s.decreased else s.decreased;
})

-- d4xDownloadQueue::insert_before, with tDList::insert_before: RUN_OR_WAIT_DOWNLOADS stays.
unfoldable pub insert_before : Downloads → ℕ → ℕ → Downloads
unfolding put_before
insert_before s what place = if s.owner place == dl_alone then s else (record s {
  lists = update s.lists (s.owner place) (put_before what place (s.lists (s.owner place)));
  owner = update s.owner what (s.owner place);
})

-- d4xDownloadQueue::count of one list.
unfoldable pub count : Downloads → ℕ → ℕ
count s key = length (s.lists key)

-- d4xDownloadQueue::is_first
unfoldable pub is_head : List ℕ → ℕ → Bool
is_head [] f = false
is_head (a ∷ rest) f = a == f

unfoldable pub is_first : Downloads → ℕ → ℕ → Bool
unfolding is_head
is_first s key f = is_head (s.lists key) f
