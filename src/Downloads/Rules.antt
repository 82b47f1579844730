-- ===== src/Downloads/Rules.antt =====
-- main/face/passface.cc: the rules of the URL manager, which limit how many downloads run that match
-- one. A rule is known by its address. Its link to a download is known by the download: a link is in
-- one list at a time, as it is in the code as long as limit_to_run finds it in `limited`.
use d4x.Prelude.{
  ℕ, suc, ◌+◌, Bool, true, false, ◌&&◌, not, [], ◌∷◌, ◌++◌, ◌==◌, leb, ltb, if◌then◌else◌,
}
use d4x.Downloads.{Downloads, add, del, update, without, dl_limit}

-- What is asked of others: the address of a download, by which ALL_DOWNLOADS::find compares, and
-- whether it is valid; has it a time in the schedule, is it protected; can its thread be started
-- (run_new_thread), is its part of the file overlapped (WL->is_overlaped); the rule that it matches,
-- 0 for none (find_match), and the limit of a rule; its row in the window. Then MAX_ACTIVE, AUTODEL_COMPLETED and AUTODEL_FAILED of the queue, and OFFLINE_MODE,
-- ALLOW_FORCE_RUN, WITHOUT_FACE, TO_WAIT_IF_HERE and do_not_run.
pub record World : Type 0 where
  pub url : ℕ → ℕ
  pub is_valid : ℕ → Bool
  pub scheduled : ℕ → Bool
  pub is_protected : ℕ → Bool
  pub starts : ℕ → Bool
  pub overlapped : ℕ → Bool
  pub find_match : ℕ → ℕ
  pub con_limit : ℕ → ℕ
  pub row : ℕ → ℕ
  pub max_active : ℕ
  pub autodel_completed : Bool
  pub autodel_failed : Bool
  pub offline_mode : Bool
  pub allow_force_run : Bool
  pub without_face : Bool
  pub to_wait_if_here : Bool
  pub do_not_run : Bool

-- A download taken out of its list and put at the end of another.
unfoldable pub move : Downloads → ℕ → ℕ → Downloads
unfolding add del
move s what key = add (del s what) what key

unfoldable pub set_action : Downloads → ℕ → ℕ → Downloads
set_action s what a = record s { action = update s.action what a }

-- tFacePass::limit_check
unfoldable pub limit_check : World → Downloads → ℕ → Bool
limit_check w s what =
    let r = s.rule what in not (r == 0) && leb (w.con_limit r + s.lowered r) (s.raised r)

-- tFacePass::match_and_check, but for its result.
unfoldable pub match_and_check : World → Downloads → ℕ → Bool → Downloads
unfolding move
match_and_check w s what stays =
    let r = w.find_match what in
    let t = if stays then s else move s what dl_limit in
    if not (r == 0) && ltb 0 (w.con_limit r) && (s.rule what == 0)
    then (record t {
      rule = update t.rule what r;
      held = update t.held what true;
      limited = update t.limited r (t.limited r ++ what ∷ []);
    })
    else s

-- tFacePass::limit_to_run
unfoldable pub limit_to_run : Downloads → ℕ → Downloads
unfolding without
limit_to_run s what =
    let r = s.rule what in
    if r == 0 then s else (record s {
      held = update s.held what false;
      limited = update s.limited r (without what (s.limited r));
      lim_run = update s.lim_run r (s.lim_run r ++ what ∷ []);
      raised = update s.raised r (suc (s.raised r));
    })

-- tFacePass::stop_matched
unfoldable pub stop_matched : Downloads → ℕ → Downloads
unfolding without
stop_matched s what =
    let r = s.rule what in
    if r == 0 then s else (record s {
      rule = update s.rule what 0;
      limited = if s.held what then update s.limited r (without what (s.limited r)) else s.limited;
      lim_run = if s.held what then s.lim_run else update s.lim_run r (without what (s.lim_run r));
    })

-- tFacePass::limit_dec, but for the download that may run now.
unfoldable pub lower : Downloads → ℕ → Downloads
lower s what =
    let r = s.rule what in
    if r == 0 then s else (record s { lowered = update s.lowered r (suc (s.lowered r)) })
