-- ===== src/Schedule/Files.antt =====
-- main/schedule.cc: load and save of the actions and of the scheduler.
use d4x.Prelude.{
  ℕ, zero, suc, true, false, Option, none, some, List, [], ◌∷◌, if◌then◌else◌, Bytes, codes,
  get_elem?,
}
use d4x.Decimal.{scan_number}
use d4x.TextFile.{
  max_len, f_rstr, no_line, equal_uncase, ◌then◌, f_wstr_lf, write_named_string,
  write_named_integer,
}
use d4x.Scheduler.{left}
use d4x.Schedule.{
  Task, set_speed, popup_window, exit, del_completed, del_failed, run_download, pause_download,
  delete_download, del_if_completed, add_download, save_list, execute, Entry, Formats,
  print_retries, scan_retries, Field, start_field, period_field, retries_field, speed_field,
  url_field, download_field, text_field, end_field, stored, header, table_of_fields, with_url,
  with_speed, with_text, download_of, Parsed, Tried, ended, broken, going,
}

-- The names that d4xScheduler::load looks for, in the order of the numbers of the actions.
unfoldable pub headers : List Bytes
headers =
    codes "d4x_sa_speed:"
    ∷ codes "d4x_sa_popup:"
    ∷ codes "d4x_sa_exit:"
    ∷ codes "d4x_sa_del_completed:"
    ∷ codes "d4x_sa_del_failed:"
    ∷ codes "d4x_sa_run_download:"
    ∷ codes "d4x_sa_stop_download:"
    ∷ codes "d4x_sa_del_download:"
    ∷ codes "d4x_sa_del_if_completed:"
    ∷ codes "d4x_sa_add_download:"
    ∷ codes "d4x_sa_save_list:"
    ∷ codes "d4x_sa_execute:"
    ∷ []

module _ {Url Download : Type 0} (fmt : Formats Url Download) where
  unfoldable pub parsed : Bytes → Entry Url Download → Bytes → Parsed Url Download
  parsed buf e rest = record { ok = true; buf = buf; entry = e; rest = rest }

  -- sv_parse_file: the cases SV_TYPE_TIME, INT, URL, PSTR and DOWNLOAD.
  unfoldable pub sv_parse_file : Field → Bytes → Entry Url Download → Bytes → Parsed Url Download
  unfolding parsed stored scan_retries with_url with_speed with_text download_of
  sv_parse_file start_field buf e file =
      let l = f_rstr max_len file in
      parsed l.text (record e { start_time = stored (scan_number l.text) e.start_time }) l.rest
  sv_parse_file period_field buf e file =
      let l = f_rstr max_len file in
      parsed l.text (record e { period = stored (scan_number l.text) e.period }) l.rest
  sv_parse_file retries_field buf e file =
      let l = f_rstr max_len file in
      parsed l.text (record e { retries = stored (scan_retries l.text) e.retries }) l.rest
  sv_parse_file speed_field buf e file =
      let l = f_rstr max_len file in
      parsed l.text (record e { task = with_speed (scan_number l.text) e.task }) l.rest
  sv_parse_file url_field buf e file =
      let l = f_rstr max_len file in
      parsed l.text (record e { task = with_url (fmt.text_url l.text) e.task }) l.rest
  sv_parse_file text_field buf e file =
      let l = f_rstr max_len file in
      parsed l.text (record e { task = with_text l.text e.task }) l.rest
  sv_parse_file download_field buf e file =
      let d = fmt.load_download (download_of e.task) file in
      record {
        ok = d.ok;
        buf = buf;
        entry = record e { task = add_download (some d.download) };
        rest = d.rest;
      }
  sv_parse_file end_field buf e file = record { ok = false; buf = buf; entry = e; rest = file }

  -- Behind a call of sv_parse_file: the loop goes on if it was successful.
  unfoldable pub go_on :
      (Bytes → Entry Url Download → Bytes → Tried Url Download)
      → Parsed Url Download
      → Tried Url Download
  go_on k p = if p.ok then k p.buf p.entry p.rest else broken p.rest

  -- What load does at a row that matches.
  unfoldable pub try_field :
      (Bytes → Entry Url Download → Bytes → Tried Url Download)
      → Field
      → Bytes
      → Entry Url Download
      → Bytes
      → Tried Url Download
  unfolding go_on sv_parse_file
  try_field k end_field buf e file = ended e file
  try_field k start_field buf e file = go_on k (sv_parse_file start_field buf e file)
  try_field k period_field buf e file = go_on k (sv_parse_file period_field buf e file)
  try_field k retries_field buf e file = go_on k (sv_parse_file retries_field buf e file)
  try_field k speed_field buf e file = go_on k (sv_parse_file speed_field buf e file)
  try_field k url_field buf e file = go_on k (sv_parse_file url_field buf e file)
  try_field k text_field buf e file = go_on k (sv_parse_file text_field buf e file)
  try_field k download_field buf e file = go_on k (sv_parse_file download_field buf e file)

  -- The `for` loop of load over the rows that are left. It goes on after a field that was read, with
  -- the value in the buffer.
  unfoldable pub try_fields :
      List (Bytes × Field) → Bytes → Entry Url Download → Bytes → Tried Url Download
  unfolding try_field
  try_fields [] buf e file = going e file
  try_fields ((name, field) ∷ rows) buf e file =
      let skipped = try_fields rows buf e file in
      if equal_uncase buf name then try_field (try_fields rows) field buf e file else skipped

  -- What the `while` loop of load does with the outcome of a pass.
  unfoldable pub again :
      (Entry Url Download → Bytes → Tried Url Download) → Tried Url Download → Tried Url Download
  again k (ended e rest) = ended e rest
  again k (broken rest) = broken rest
  again k (going e rest) = k e rest

  -- The load of an action, with fuel for its `while` loop; `broken` is its result -1.
  unfoldable pub load_entry :
      ℕ → List (Bytes × Field) → Entry Url Download → Bytes → Tried Url Download
  unfolding try_fields again no_line
  load_entry zero table e file = going e file
  load_entry (suc fuel) table e file =
      let l = f_rstr max_len file in
      let more = again (load_entry fuel table) (try_fields table l.text e l.rest) in
      if no_line l.count then broken l.rest else more

  -- The cases of the `switch` of d4xScheduler::load, in the order of their numbers.
  unfoldable pub new_tasks : List (Task Url Download)
  new_tasks =
      set_speed fmt.garbage
      ∷ popup_window
      ∷ exit
      ∷ del_completed
      ∷ del_failed
      ∷ run_download fmt.new_url
      ∷ pause_download fmt.new_url
      ∷ delete_download fmt.new_url
      ∷ del_if_completed fmt.new_url
      ∷ add_download none
      ∷ save_list none
      ∷ execute none
      ∷ []

  -- The `switch` of d4xScheduler::load.
  unfoldable pub new_task : ℕ → Option (Task Url Download)
  unfolding new_tasks
  new_task i = get_elem? new_tasks i

  -- The action that `new` gives.
  unfoldable pub new_entry : Task Url Download → Entry Url Download
  new_entry t = record {
    start_time = fmt.garbage;
    period = fmt.garbage;
    retries = left fmt.garbage;
    task = t;
  }

  -- The `for` loop of d4xScheduler::load over the names from the i-th on.
  unfoldable pub pick :
      List Bytes → ℕ → Bytes → Option (Task Url Download) → Option (Task Url Download)
  unfolding new_task
  pick [] i buf action = action
  pick (name ∷ names) i buf action =
      pick names (suc i) buf (if equal_uncase buf name then new_task i else action)

  -- The action in front of those that the rest of the file gives.
  unfoldable pub prepend :
      Entry Url Download → Option (List (Entry Url Download)) → Option (List (Entry Url Download))
  prepend e none = none
  prepend e (some es) = some (e ∷ es)

  -- `if (action->load (fd) == 0)`: an action that is broken is deleted.
  unfoldable pub after_entry :
      (Bytes → Option (List (Entry Url Download)))
      → Tried Url Download
      → Option (List (Entry Url Download))
  unfolding prepend
  after_entry k (ended e rest) = prepend e (k rest)
  after_entry k (broken rest) = k rest
  after_entry k (going e rest) = none

  -- `if (action)`
  unfoldable pub after_pick :
      ℕ
      → (Bytes → Option (List (Entry Url Download)))
      → Option (Task Url Download)
      → Bytes
      → Option (List (Entry Url Download))
  unfolding after_entry load_entry new_entry table_of_fields
  after_pick fuel k none rest = k rest
  after_pick fuel k (some t) rest =
      after_entry k (load_entry fuel (table_of_fields t) (new_entry t) rest)

  -- d4xScheduler::load, with `rounds` for its loop and `fuel` for each action: the actions in the
  -- order in which they are given to add_action. `none` means that the fuel did not suffice.
  unfoldable pub load_actions : ℕ → ℕ → Bytes → Option (List (Entry Url Download))
  load_actions zero fuel file = none
  load_actions (suc rounds) fuel file =
      let l = f_rstr max_len file in
      let more = after_pick fuel (load_actions rounds fuel) (pick headers 0 l.text none) l.rest in
      if no_line l.count then some [] else more

-- What a write leaves whose result is not looked at.
unfoldable pub ignored : (Bytes → Option Bytes) → Bytes → Bytes
unfolding stored
ignored w file = stored (w file) file

module _ {Url Download : Type 0} (fmt : Formats Url Download)
    (sys_write : Bytes → Bytes → Option Bytes) where
  -- d4xSchedAction::save
  unfoldable pub save_common : Entry Url Download → Bytes → Option Bytes
  unfolding ◌then◌ print_retries
  save_common e file =
      (write_named_integer sys_write (codes "start_time") e.start_time file)
      then (write_named_integer sys_write (codes "period") e.period)
      then (write_named_string sys_write (codes "retries") (some (print_retries e.retries)))
      then (f_wstr_lf sys_write (codes "end."))

  -- d4xSAUrl::save, before it calls d4xSchedAction::save.
  unfoldable pub save_url : Url → Bytes → Option Bytes
  unfolding ignored
  save_url u file = some (
      ignored (f_wstr_lf sys_write (fmt.url_text u))
        (ignored (f_wstr_lf sys_write (codes "URL:")) file))

  -- What the save of each class writes between the header and d4xSchedAction::save.
  unfoldable pub save_task : Task Url Download → Bytes → Option Bytes
  unfolding save_url ignored
  save_task (set_speed n) = write_named_integer sys_write (codes "speed") n
  save_task (run_download u) = save_url u
  save_task (pause_download u) = save_url u
  save_task (delete_download u) = save_url u
  save_task (del_if_completed u) = save_url u
  save_task (add_download none) = some
  save_task (add_download (some d)) = λ file. some (fmt.save_download d file)
  save_task (save_list p) =
      λ file. some (ignored (write_named_string sys_write (codes "path") p) file)
  save_task (execute c) =
      λ file. some (ignored (write_named_string sys_write (codes "command") c) file)
  save_task t = some

  -- The save of an action.
  unfoldable pub save_entry : Entry Url Download → Bytes → Option Bytes
  unfolding save_task save_common ◌then◌ header
  save_entry e file =
      (f_wstr_lf sys_write (header e.task) file) then (save_task e.task) then (save_common e)

  -- d4xScheduler::save
  unfoldable pub save_entries : List (Entry Url Download) → Bytes → Option Bytes
  unfolding save_entry ◌then◌
  save_entries [] file = some file
  save_entries (e ∷ es) file = (save_entry e file) then (save_entries es)
