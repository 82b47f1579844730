-- ===== src/Schedule.antt =====
-- main/schedule.cc: the kinds of scheduled actions and the file they are kept in, with the cases of
-- sv_parse_file (main/savedvar.cc) that it uses. URLs and downloads are parameters, with what
-- Formats says of them; a `time_t` and a speed are not negative.
pub mod Files
pub mod Lines
pub mod RoundTrip
pub mod Loaded
pub mod Saved
pub mod Ends
mod Tests
use d4x.Prelude.{
  ℕ, zero, suc, ◌+◌, Bool, true, false, Option, none, some, List, [], ◌∷◌, ◌++◌, ◌==◌, ◌≡◌,
  if◌then◌else◌, Bytes, codes,
}
use d4x.Decimal.{print_number, scan_number}
use d4x.TextFile.{
  Line, max_len, f_rstr, equal_uncase, ◌then◌, f_wstr_lf, write_named_string, write_named_integer,
}
use d4x.Scheduler.{Retries, unlimited, left}

-- What the classes behind d4xSchedAction add to it; `none` is the pointer NULL.
pub data Task (Url Download : Type 0) : Type 0 where
  set_speed : ℕ → Task Url Download
  popup_window : Task Url Download
  exit : Task Url Download
  del_completed : Task Url Download
  del_failed : Task Url Download
  run_download : Url → Task Url Download
  pause_download : Url → Task Url Download
  delete_download : Url → Task Url Download
  del_if_completed : Url → Task Url Download
  add_download : Option Download → Task Url Download
  save_list : Option Bytes → Task Url Download
  execute : Option Bytes → Task Url Download

-- The fields of d4xSchedAction that are saved, and those of its class.
pub record Entry (Url Download : Type 0) : Type 0 where
  pub start_time : ℕ
  pub period : ℕ
  pub retries : Retries
  pub task : Task Url Download

-- What tDownload::load_from_config leaves: was it successful, the download, the rest of the file.
pub record DownloadRead (Download : Type 0) : Type 0 where
  pub ok : Bool
  pub download : Download
  pub rest : Bytes

-- How URLs and downloads are written and read: `std::string (url)` and back,
-- tDownload::save_to_config and load_from_config; and the number in memory that `new` does not set.
pub record Formats (Url Download : Type 0) : Type 0 where
  pub url_text : Url → Bytes
  pub text_url : Bytes → Url
  pub new_url : Url
  pub save_download : Download → Bytes → Bytes
  pub load_download : Option Download → Bytes → DownloadRead Download
  pub garbage : ℕ

-- `%d` of retries, where -1 stands for no limit.
unfoldable pub print_retries : Retries → Bytes
print_retries unlimited = codes "-1"
print_retries (left n) = print_number n

-- `%d` into retries.
unfoldable pub scan_retries : Bytes → Option Retries
scan_retries [] = none
scan_retries (c ∷ s) =
    if c == 45
    then (elim (scan_number s) [
      | none ↦ none
      | some zero ↦ some (left 0)
      | some (suc n) ↦ some unlimited
    ])
    else (elim (scan_number (c ∷ s)) [ none ↦ none | some n ↦ some (left n) ])

-- What the rows of the tables of fields are about.
pub data Field : Type 0 where
  start_field : Field
  period_field : Field
  retries_field : Field
  speed_field : Field
  url_field : Field
  download_field : Field
  text_field : Field
  end_field : Field

unfoldable pub common_fields : List (Bytes × Field)
common_fields =
    (codes "start_time", start_field)
    ∷ (codes "period", period_field)
    ∷ (codes "retries", retries_field)
    ∷ []

-- What a variable becomes by sscanf, which may store nothing.
unfoldable pub stored {ℓ} : {A : Type ℓ} → Option A → A → A
stored none old = old
stored (some new) old = new

module _ {Url Download : Type 0} where
  -- The virtual type (), by the number of the kind in D4X_SCHEDULED_ACTION.
  unfoldable pub task_type : Task Url Download → ℕ
  task_type (set_speed n) = 0
  task_type popup_window = 1
  task_type exit = 2
  task_type del_completed = 3
  task_type del_failed = 4
  task_type (run_download u) = 5
  task_type (pause_download u) = 6
  task_type (delete_download u) = 7
  task_type (del_if_completed u) = 8
  task_type (add_download d) = 9
  task_type (save_list p) = 10
  task_type (execute c) = 11

  -- The first line that the class's save writes.
  unfoldable pub header : Task Url Download → Bytes
  header (set_speed n) = codes "d4x_sa_speed:"
  header popup_window = codes "d4x_sa_popup:"
  header exit = codes "d4x_sa_exit:"
  header del_completed = codes "d4x_sa_del_completed:"
  header del_failed = codes "d4x_sa_del_failed:"
  header (run_download u) = codes "d4x_sa_run_download:"
  header (pause_download u) = codes "d4x_sa_stop_download:"
  header (delete_download u) = codes "d4x_sa_del_download:"
  header (del_if_completed u) = codes "d4x_sa_del_if_completed:"
  header (add_download d) = codes "d4x_sa_add_download:"
  header (save_list p) = codes "d4x_sa_save_list:"
  header (execute c) = codes "d4x_sa_execute:"

  -- The rows between `retries` and `end.` in the table of the class's load.
  unfoldable pub extra_fields : Task Url Download → List (Bytes × Field)
  extra_fields (set_speed n) = (codes "speed", speed_field) ∷ []
  extra_fields popup_window = []
  extra_fields exit = []
  extra_fields del_completed = []
  extra_fields del_failed = []
  extra_fields (run_download u) = (codes "URL:", url_field) ∷ []
  extra_fields (pause_download u) = (codes "URL:", url_field) ∷ []
  extra_fields (delete_download u) = (codes "URL:", url_field) ∷ []
  extra_fields (del_if_completed u) = (codes "URL:", url_field) ∷ []
  extra_fields (add_download d) = (codes "Download:", download_field) ∷ []
  extra_fields (save_list p) = (codes "path", text_field) ∷ []
  extra_fields (execute c) = (codes "command", text_field) ∷ []

  unfoldable pub table_of_fields : Task Url Download → List (Bytes × Field)
  unfolding common_fields extra_fields
  table_of_fields t = common_fields ++ extra_fields t ++ (codes "end.", end_field) ∷ []

  -- The URL, the speed and the text of a task replaced.
  unfoldable pub with_url : Url → Task Url Download → Task Url Download
  with_url u (run_download v) = run_download u
  with_url u (pause_download v) = pause_download u
  with_url u (delete_download v) = delete_download u
  with_url u (del_if_completed v) = del_if_completed u
  with_url u t = t

  unfoldable pub with_speed : Option ℕ → Task Url Download → Task Url Download
  unfolding stored
  with_speed n (set_speed m) = set_speed (stored n m)
  with_speed n t = t

  unfoldable pub with_text : Bytes → Task Url Download → Task Url Download
  with_text s (save_list p) = save_list (some s)
  with_text s (execute c) = execute (some s)
  with_text s t = t

  unfoldable pub download_of : Task Url Download → Option Download
  download_of (add_download d) = d
  download_of t = none

-- What sv_parse_file leaves: was it successful, the buffer, the action, the rest of the file.
pub record Parsed (Url Download : Type 0) : Type 0 where
  pub ok : Bool
  pub buf : Bytes
  pub entry : Entry Url Download
  pub rest : Bytes

-- What a pass over the table leaves: the action is complete, it is broken, or the loop goes on.
pub data Tried (Url Download : Type 0) : Type 0 where
  ended : Entry Url Download → Bytes → Tried Url Download
  broken : Bytes → Tried Url Download
  going : Entry Url Download → Bytes → Tried Url Download
